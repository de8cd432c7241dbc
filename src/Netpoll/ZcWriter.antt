-- ===== src/Netpoll/ZcWriter.antt =====
-- netpoll/nocopy_readwriter.go: zcWriter, over a buffer and an `io.Writer`, and ioReader and ioWriter, over any reader
-- and writer of the interfaces.
pub mod Flushes
pub mod Output
use gocore.Common.{
  ℕ, Bool, true, false, List, [], Option, none, some, ltb, if◌then◌else◌, length, take, ◌==◌,
}
use gocore.Common.Int.{ℤ, pos, negsuc}
use gocore.Common.Run.{Run, ok, ◌>>=◌}
use gocore.Netpoll.Buffer.{LinkBuffer, IoWriter, Err, eof}

pub record ZcWriter (L W : Type 0) : Type 0 where
  pub buf : L
  pub sink : W

module _ {L W : Type 0} (b : LinkBuffer L) (write : IoWriter W) where
  unfoldable pub new_zc_writer : W → ZcWriter L W
  new_zc_writer w = record { buf = b.new_link_buffer; sink = w }

  unfoldable pub malloc : ℕ → ZcWriter L W → Option Err × ZcWriter L W
  malloc n w = let x = b.malloc n w.buf in (x.0, record w { buf = x.1 })

  unfoldable pub malloc_len : ZcWriter L W → ℕ
  malloc_len w = b.malloc_len w.buf

  -- The writing into a slice that `Malloc` gave.
  unfoldable pub write_at : ℕ → List ℕ → ZcWriter L W → ZcWriter L W
  write_at i bs w = record w { buf = b.write_at i bs w.buf }

  unfoldable pub malloc_ack : ℕ → ZcWriter L W → ZcWriter L W
  malloc_ack n w = record w { buf = b.malloc_ack n w.buf }

  -- The bytes that were written leave the buffer; the errors of `Skip` and `Release` are dropped.
  abbrev pub dropped : ℤ → L → L
  dropped (pos n) l = if ltb 0 n then (b.release (b.skip n l).1).1 else l
  dropped (negsuc n) l = l

  unfoldable pub flush : ZcWriter L W → Option Err × ZcWriter L W
  flush w =
      let l = b.flush w.buf in
      let r = write (b.bytes l) w.sink in ((r.0).1, record { buf = dropped (r.0).0 l; sink = r.1 })

-- What `ioReader` calls of its reader, and `ioWriter` of its writer.
pub record Reads (R : Type 0) : Type 0 where
  pub len : R → ℕ
  pub next : ℕ → R → Run ((List ℕ × Option Err) × R)
  pub release : R → Option Err × R

pub record Writes (W : Type 0) : Type 0 where
  pub malloc : ℕ → W → Option Err × W
  pub malloc_len : W → ℕ
  pub write_at : ℕ → List ℕ → W → W
  pub flush : W → Option Err × W

-- The count, and the bytes that are in the caller's slice, of length `l`.
abbrev released : {R : Type 0} → List ℕ → Option Err × R → (List ℕ × Option Err) × R
released bs (some e, r) = (([], some e), r)
released bs (none, r) = ((bs, none), r)

abbrev copied : {R : Type 0} → Reads R → ℕ → (List ℕ × Option Err) × R → (List ℕ × Option Err) × R
copied o l ((src, some e), r) = (([], some e), r)
copied o l ((src, none), r) = released (take l src) (o.release r)

-- `ioReader.Read` of a slice of length `l`: the bytes that are read, and the error.
unfoldable pub io_read : {R : Type 0} → Reads R → ℕ → R → Run ((List ℕ × Option Err) × R)
io_read o l r =
    let n = if ltb (o.len r) l then o.len r else l in
    if l == 0
    then ok (([], none), r)
    else if n == 0
    then ok (([], some eof), r)
    else o.next n r >>= λ x. ok (copied o l x)

abbrev pub flushed : {W : Type 0} → ℕ → Option Err × W → (ℕ × Option Err) × W
flushed n (some e, w) = ((0, some e), w)
flushed n (none, w) = ((n, none), w)

abbrev pub put : {W : Type 0} → Writes W → List ℕ → ℕ → Option Err × W → (ℕ × Option Err) × W
put o p offset (some e, w) = ((0, some e), w)
put o p offset (none, w) = flushed (length p) (o.flush (o.write_at offset p w))

-- `ioWriter.Write`.
unfoldable pub io_write : {W : Type 0} → Writes W → List ℕ → W → (ℕ × Option Err) × W
io_write o p w = put o p (o.malloc_len w) (o.malloc (length p) w)
