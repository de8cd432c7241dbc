-- ===== src/Netpoll/Connection.antt =====
-- netpoll/connection_impl.go, connection_reactor.go: a connection's buffers, their sizes and its triggers, as the poller
-- and the writer handle them.
pub mod Until
pub mod Lines
pub mod Waiting
pub mod Arrivals
pub mod Sizes
pub mod Sends
pub mod Wakes
pub mod Awake
use gocore.Common.{
  ℕ, zero, suc, ◌+◌, ◌*◌, ◌/◌, Bool, true, false, ◌&&◌, ◌||◌, not, List, [], ◌∷◌, Option, none,
  some, ltb, leb, ◌==◌, if◌then◌else◌, length,
}
use gocore.Common.Int.{ℤ, pos, negsuc}

-- What the connection calls of a `LinkBuffer`, with the bytes of the first slices, at most as many as it is told, as `get_bytes`. `book_ack` gives the length
-- afterwards, and `skip` its error, if any.
pub record ConnBuffer (L : Type 0) : Type 0 where
  pub len : L → ℕ
  pub is_empty : L → Bool
  pub book : ℕ → ℕ → L → L
  pub book_ack : ℕ → L → ℕ × L
  pub calc_max_size : L → ℕ
  pub reset_tail : ℕ → L → L
  pub get_bytes : ℕ → L → List ℕ
  pub skip : ℕ → L → Option ℕ × L
  pub release : L → L

-- `PollR2RW` and `PollRW2R`.
pub data PollEvent : Type 0 where
  r2rw rw2r_event : PollEvent

-- Errors of the connection: those that it makes, and that of a flush with the error beneath.
pub data ConnErr : Type 0 where
  closed read_timeout write_timeout : ConnErr
  when_flush : ℕ → ConnErr

-- A trigger is a channel of one place. `controls` are the events that the poller was asked for, the last one first.
pub record Conn (L : Type 0) : Type 0 where
  pub input : L
  pub output : L
  pub book_size : ℕ
  pub max_size : ℕ
  pub wait_read_size : ℕ
  pub read_trigger : Bool
  pub write_trigger : Option (Option ConnErr)
  pub controls : List PollEvent

abbrev pub block1k : ℕ
block1k = 1024

abbrev pub pagesize : ℕ
pagesize = 8192

-- A trigger that is full takes no more.
abbrev pub kept_trigger : Option (Option ConnErr) → Option ConnErr → Option (Option ConnErr)
kept_trigger none err = some err
kept_trigger (some e) err = some e

abbrev pub doubled : ℕ → ℕ → ℕ → ℕ
doubled malloc_max n size = if (n == size) && ltb size malloc_max then size * 2 else size

abbrev pub capped : ℕ → ℕ → ℕ → ℕ
capped malloc_max size len =
    let larger = if ltb size len then len else size in
    if ltb malloc_max larger then malloc_max else larger

-- How `flush` ends: it returns, or it waits for the poller.
pub data Flushed : Type 0 where
  returns : Option ConnErr → Flushed
  waits : Flushed

module _ {L : Type 0} where
  -- `init`, over new buffers.
  unfoldable pub init : L → L → Conn L
  init input output = record {
    input = input;
    output = output;
    book_size = block1k / 2;
    max_size = pagesize;
    wait_read_size = 0;
    read_trigger = false;
    write_trigger = none;
    controls = [];
  }

  abbrev pub trigger_read : Conn L → Conn L
  trigger_read c = record c { read_trigger = true }

  abbrev pub trigger_write : Option ConnErr → Conn L → Conn L
  trigger_write err c = record c { write_trigger = kept_trigger c.write_trigger err }

  abbrev control : PollEvent → Conn L → Conn L
  control e c = record c { controls = e ∷ c.controls }

  -- Its error is dropped.
  abbrev pub rw2r : Conn L → Conn L
  rw2r c = trigger_write none (control rw2r_event c)

  abbrev pub wakes : Bool → ℕ → Conn L → Conn L
  wakes needs len c = if needs && leb c.wait_read_size len then trigger_read c else c

-- `onRequest`, which may start the handler of the request in a goroutine of its own, gives whether the reader is still
-- to be woken. It is not in the repository, nor is `mallocMax`.
module _ {L : Type 0} (b : ConnBuffer L) (malloc_max : ℕ) (on_request : Conn L → Bool) where
  unfoldable pub inputs : Conn L → Conn L
  inputs c = record c { input = b.book c.book_size c.max_size c.input }

  -- The start of a request is where the buffer holds nothing but the bytes that came.
  abbrev acked : ℕ → ℕ → Conn L → Conn L
  acked n len c = if len == n then wakes (on_request c) len c else wakes true len c

  abbrev positive : ℕ → Conn L → Conn L
  positive n c =
      let r = b.book_ack n c.input in
      acked n r.0 (record c {
        input = r.1;
        book_size = doubled malloc_max n c.book_size;
        max_size = capped malloc_max c.max_size r.0;
      })

  abbrev nothing_read : Conn L → Conn L
  nothing_read c = record c { input = (b.book_ack 0 c.input).1 }

  unfoldable pub input_ack : ℤ → Conn L → Conn L
  input_ack (negsuc n) c = nothing_read c
  input_ack (pos n) c = if n == 0 then nothing_read c else positive n c

  -- `Release`, with whether the operator could be taken.
  abbrev resized : Conn L → Conn L
  resized c =
      let size = b.calc_max_size c.input in
      let size' = if ltb malloc_max size then malloc_max else size in
      let max_size = if ltb c.max_size size' then size' else c.max_size in
      record c { max_size = max_size; input = b.reset_tail max_size c.input }

  unfoldable pub release : Bool → Conn L → Conn L
  release taken c =
      let c' = if (b.len c.input == 0) && taken then resized c else c in
      record c' { input = b.release c'.input }

  -- The bytes that the poller is to send, if there are any. `barriercap`, the number of slices in a vector, is not
  -- declared in the package.
  unfoldable pub outputs : ℕ → Conn L → List ℕ × Conn L
  outputs barriercap c =
      if b.is_empty c.output then ([], rw2r c) else (b.get_bytes barriercap c.output, c)

  abbrev pub sent : ℕ → Conn L → Conn L
  sent n c = record c { output = b.release (b.skip n c.output).1 }

  abbrev pub if_empty : Conn L → Conn L
  if_empty c = if b.is_empty c.output then rw2r c else c

  unfoldable pub output_ack : ℤ → Conn L → Conn L
  output_ack (negsuc n) c = if_empty c
  output_ack (pos n) c = if ltb 0 n then if_empty (sent n c) else if_empty c

  -- `sendmsg` gave the count `n`: the error of `Control` is its argument.
  abbrev polled : Option ℕ → Conn L → Flushed × Conn L
  polled none c = (waits, control r2rw c)
  polled (some e) c = (returns (some (when_flush e)), control r2rw c)

  abbrev pub left : Option ℕ → Conn L → Flushed × Conn L
  left failed c = if b.is_empty c.output then (returns none, c) else polled failed c

  abbrev after_skip : Option ℕ → ℕ → Option ℕ × L → Conn L → Flushed × Conn L
  after_skip failed n r c =
      let c' = record c { output = b.release r.1 } in
      elim r.0 [ none ↦ left failed c' | some e ↦ (returns (some (when_flush e)), c') ]

  abbrev pub counted : Option ℕ → ℤ → Conn L → Flushed × Conn L
  counted failed (negsuc n) c = left failed c
  counted failed (pos n) c =
      if ltb 0 n then after_skip failed n (b.skip n c.output) c else left failed c

  -- `flush`, over `sendmsg`, which gives a count and the number of an error, and over the error of `Control`. An
  -- `EAGAIN` is none.
  abbrev flushes : ℕ → Option ℕ → ℤ × Option ℕ → Conn L → Flushed × Conn L
  flushes eagain failed (n, none) c = counted failed n c
  flushes eagain failed (n, some e) c =
      if e == eagain then counted failed n c else (returns (some (when_flush e)), c)

  unfoldable pub flush :
      {W : Type 0}
      → ℕ
      → (List ℕ → W → (ℤ × Option ℕ) × W)
      → ℕ
      → Option ℕ
      → Conn L
      → W
      → (Flushed × Conn L) × W
  flush barriercap sendmsg eagain failed c w =
      let r = sendmsg (b.get_bytes barriercap c.output) w in
      if b.is_empty c.output then ((returns none, c), w) else (flushes eagain failed r.0 c, r.1)
