-- ===== src/Netpoll/Connection/Waiting.antt =====
-- netpoll/connection_impl.go: `waitRead` with a read timeout, `waitReadWithTimeout` and `fill`, over the input buffer.
use gocore.Common.{ℕ, Bool, true, false, List, [], ◌∷◌, Option, none, some, ltb, leb, if◌then◌else◌}
use gocore.Netpoll.Connection.{ConnErr, closed, read_timeout}
use gocore.Netpoll.Connection.Until.{Input}

-- What the connection calls of its input `LinkBuffer`, which is not in the repository. `put` is what `inputs`, a read and
-- `inputAck` do to it: the bytes that were read are behind those that it holds.
pub record InBuffer (L : Type 0) : Type 0 where
  pub len : L → ℕ
  pub put : List ℕ → L → L
  pub index_byte : ℕ → ℕ → L → Option ℕ
  pub next : ℕ → L → (List ℕ × Option ConnErr) × L
  pub release : L → Option ConnErr × L

-- What a wait meets while the connection is active: the poller reads bytes and triggers the reader, or the timer fires.
pub data Event : Type 0 where
  arrives : List ℕ → Event
  fires : Event

-- What is left when no bytes come from the poller any more: an active connection, for which only the timer fires, or one
-- that is not, with whether the netFD is closed.
pub data Ending : Type 0 where
  stays : Ending
  inactive : Bool → Ending

-- `unread` are the reads of `fill` that give bytes, and `failure` is the error that ends them. `is_finalizing` is whether
-- the connection's lock `finalizing` is taken. The size that the reader waits for, and the trigger, are those of Wakes.
pub record Wire (L : Type 0) : Type 0 where
  pub buf : L
  pub coming : List Event
  pub ending : Ending
  pub unread : List (List ℕ)
  pub failure : ConnErr
  pub is_finalizing : Bool

module _ {L : Type 0} (b : InBuffer L) where
  abbrev pub put_all : List (List ℕ) → L → L
  put_all [] l = l
  put_all (bs ∷ more) l = put_all more (b.put bs l)

  -- The loop of `fill` ends with the first error of a read; one that gives no bytes is tried again.
  unfoldable pub fill : ℕ → Wire L → Option ConnErr × Wire L
  fill need s =
      let l = put_all s.unread s.buf in
      if s.is_finalizing
      then (some closed, s)
      else (if leb need (b.len l) then none else some s.failure, record s { buf = l; unread = [] })

  -- No bytes come any more, and there are too few.
  unfoldable pub ended : Ending → ℕ → Wire L → Option ConnErr × Wire L
  ended stays n s = (some read_timeout, s)
  ended (inactive true) n s = (some closed, s)
  ended (inactive false) n s = fill n s

  -- The loop of `waitReadWithTimeout`.
  unfoldable pub wait_loop : List Event → ℕ → Wire L → Option ConnErr × Wire L
  wait_loop [] n s =
      let s' : Wire L = record s { coming = [] } in
      if ltb (b.len s.buf) n then ended s.ending n s' else (none, s')
  wait_loop (arrives bs ∷ es) n s =
      let rest = wait_loop es n (record s { buf = b.put bs s.buf }) in
      if ltb (b.len s.buf) n then rest else (none, record s { coming = arrives bs ∷ es })
  wait_loop (fires ∷ es) n s =
      if ltb (b.len s.buf) n
      then (some read_timeout, record s { coming = es })
      else (none, record s { coming = fires ∷ es })

  unfoldable pub wait_read : ℕ → Wire L → Option ConnErr × Wire L
  wait_read n s = if leb n (b.len s.buf) then (none, s) else wait_loop s.coming n s

  abbrev pub input_of : Input (Wire L)
  input_of = record {
    wait_read = wait_read;
    len = λ s. b.len s.buf;
    index_byte = λ delim n s. b.index_byte delim n s.buf;
    next = λ n s. let r = b.next n s.buf in (r.0, record s { buf = r.1 });
    release = λ s. let r = b.release s.buf in (r.0, record s { buf = r.1 });
  }
