-- ===== src/Netpoll/ZcReader.antt =====
-- netpoll/nocopy_readwriter.go: zcReader, over a buffer and an `io.Reader`. `Slice`, which shares the buffer, is left out.
pub mod Stream
pub mod Waits
use gocore.Common.{
  ℕ, zero, suc, Bool, true, false, List, [], ◌∷◌, Option, none, some, ltb, if◌then◌else◌, length,
}
use gocore.Common.Int.{ℤ, pos, negsuc}
use gocore.Common.Run.{Run, ok, panic, out_of_fuel, ◌>>=◌}
use gocore.Netpoll.Buffer.{LinkBuffer, IoReader, Answer, Err, eof, eof_exception, negative_count}

pub record ZcReader (L S : Type 0) : Type 0 where
  pub buf : L
  pub source : S

-- The count of a read that is acknowledged, and the error: a negative count is one.
abbrev pub counted : ℤ → Option Err → ℕ × Option Err
counted (pos n) err = (n, err)
counted (negsuc n) none = (0, some (negative_count (negsuc n)))
counted (negsuc n) (some e) = (0, some e)

abbrev pub block4k : ℕ
block4k = 4096

abbrev pub max_read_cycle : ℕ
max_read_cycle = 16

module _ {L S : Type 0} (b : LinkBuffer L) (read : IoReader S) where
  unfoldable pub new_zc_reader : S → ZcReader L S
  new_zc_reader s = record { buf = b.new_link_buffer; source = s }

  -- A turn of the loop of `fill`: the read goes into the slice that `Malloc` gives, if it gives one.
  abbrev pub taken : ℕ → Answer × S → L → Option Err × ZcReader L S
  taken offset a l =
      let n = counted (a.0.num) (a.0.error) in
      (
        n.1,
        record { buf = b.flush (b.malloc_ack n.0 (b.write_at offset (a.0.bytes) l)); source = a.1 },
      )

  unfoldable pub fill_once : ZcReader L S → Option Err × ZcReader L S
  fill_once r =
      let m = b.malloc block4k r.buf in
      elim m.0 [
        | some e ↦ (some e, record r { buf = m.1 })
        | none ↦ taken (b.malloc_len r.buf) (read block4k r.source) m.1
      ]

  -- The loop of `fill`, with the turns that are left; it ends at the first error.
  unfoldable pub fill_loop : ℕ → ℕ → ZcReader L S → Option Err × ZcReader L S
  unfolding fill_once
  fill_loop zero n r = (none, r)
  fill_loop (suc turns) n r =
      let once = fill_once r in
      let rest = fill_loop turns n once.1 in
      if ltb (b.len r.buf) n then (elim once.0 [ some e ↦ once | none ↦ rest ]) else (none, r)

  unfoldable pub fill : ℕ → ZcReader L S → Option Err × ZcReader L S
  unfolding fill_loop
  fill n r = fill_loop max_read_cycle n r

  abbrev pub of_eof : Err → Err
  of_eof eof = eof_exception
  of_eof e = e

  -- The loop of `waitRead`: its fuel bounds the calls of `fill`.
  unfoldable pub wait_read : ℕ → ℕ → ZcReader L S → Run (Option Err × ZcReader L S)
  wait_read zero n r = if ltb (b.len r.buf) n then out_of_fuel else ok (none, r)
  wait_read (suc fuel) n r =
      let filled = fill n r in
      let rest = wait_read fuel n filled.1 in
      if ltb (b.len r.buf) n
      then (elim filled.0 [ some e ↦ ok (some (of_eof e), filled.1) | none ↦ rest ])
      else ok (none, r)

  -- What the methods do behind `waitRead`: they return its error, or call the buffer.
  abbrev pub behind :
      {A : Type 0}
      → A
      → (L → (A × Option Err) × L)
      → Option Err × ZcReader L S
      → (A × Option Err) × ZcReader L S
  behind empty use_ (some e, r) = ((empty, some e), r)
  behind empty use_ (none, r) = let x = use_ r.buf in (x.0, record r { buf = x.1 })

  unfoldable pub waiting :
      {A : Type 0}
      → ℕ
      → ℕ
      → A
      → (L → (A × Option Err) × L)
      → ZcReader L S
      → Run ((A × Option Err) × ZcReader L S)
  unfolding wait_read
  waiting fuel n empty use_ r = wait_read fuel n r >>= λ x. ok (behind empty use_ x)

  unfoldable pub next : ℕ → ℕ → ZcReader L S → Run ((List ℕ × Option Err) × ZcReader L S)
  unfolding waiting
  next fuel n r = waiting fuel n [] b.next r

  unfoldable pub peek : ℕ → ℕ → ZcReader L S → Run ((List ℕ × Option Err) × ZcReader L S)
  unfolding waiting
  peek fuel n r = waiting fuel n [] (λ l. (b.peek n l, l)) r

  unfoldable pub skip : ℕ → ℕ → ZcReader L S → Run ((Unit {0} × Option Err) × ZcReader L S)
  unfolding waiting
  skip fuel n r = waiting fuel n tt (λ l. ((tt, (b.skip n l).0), (b.skip n l).1)) r

  -- `ReadString` does the same, and `ReadByte` with one byte.
  unfoldable pub read_binary : ℕ → ℕ → ZcReader L S → Run ((List ℕ × Option Err) × ZcReader L S)
  unfolding waiting
  read_binary fuel n r = waiting fuel n [] (b.read_binary n) r

  unfoldable pub len : ZcReader L S → ℕ
  len r = b.len r.buf

  unfoldable pub release : ZcReader L S → Option Err × ZcReader L S
  release r = let x = b.release r.buf in (x.0, record r { buf = x.1 })

  -- It does not wait for bytes.
  unfoldable pub until : ℕ → ZcReader L S → (List ℕ × Option Err) × ZcReader L S
  until delim r = let x = b.until delim r.buf in (x.0, record r { buf = x.1 })
