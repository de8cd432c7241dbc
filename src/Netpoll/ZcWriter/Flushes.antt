-- ===== src/Netpoll/ZcWriter/Flushes.antt =====
-- netpoll/nocopy_readwriter.go: what a flush of zcWriter, and a write of ioWriter, leaves.
use mathlib.Core.List.{append_assoc, append-nil}
use gocore.Common.{
  ℕ, ◌+◌, ◌≤◌, ◌≡◌, refl, sym, ap, ◌∙◌, inl, inr, List, [], ◌++◌, Option, none, some, ltb, length,
  take, drop, take-append-drop, drop-length, arith, Bool-cases, Option-cases,
}
use gocore.Common.Int.{pos}
use gocore.Netpoll.Buffer.{LinkBuffer, BufferLaws, IoWriter, WriterLaws, Err}
use gocore.Netpoll.ZcWriter.{
  ZcWriter, Writes, malloc, malloc_len, write_at, flush, dropped, io_write, flushed,
}

abbrev pub zc_writes : {L W : Type 0} → LinkBuffer L → IoWriter W → Writes (ZcWriter L W)
zc_writes b write = record {
  malloc = malloc b write;
  malloc_len = malloc_len b write;
  write_at = write_at b write;
  flush = flush b write;
}

module _ {L W : Type 0} {b : LinkBuffer L} {write : IoWriter W} (lb : BufferLaws b)
    (lw : WriterLaws write) where
  -- What is written, and what is still to be written.
  abbrev pub output : ZcWriter L W → List ℕ
  output w = lw.written w.sink ++ lb.readable w.buf

  pub record IsFlushed (w : ZcWriter L W) (x : Option Err × ZcWriter L W) : Type 0 where
    pub same : output x.1 ≡ output w ++ lb.pending w.buf
    pub empty : lb.pending x.1.buf ≡ []
    pub all : x.0 ≡ none → lb.readable x.1.buf ≡ []

  -- The bytes that were written leave the buffer.
  pub dropped_lem :
      (n : ℕ) (l : L)
      → n ≤ length (lb.readable l)
      → (lb.readable (dropped b write (pos n) l) ≡ drop n (lb.readable l))
        × (lb.pending (dropped b write (pos n) l) ≡ lb.pending l)
  dropped_lem n l h = elim (Bool-cases (ltb 0 n)) [
    | inl some_ ↦ rw some_ (
        (lb.readable-release _ ∙ (lb.skip_lem n l h).1, lb.pending-release _ ∙ lb.pending-skip n l))
    | inr none_ ↦ rw none_ (let e : n ≡ 0 = ground arith in rw e (refl, refl))
  ]

  pub drop_all : (bs : List ℕ) (n : ℕ) → n ≡ length bs → drop n bs ≡ []
  drop_all bs n e = rw e (drop-length bs)

  pub flush-IsFlushed : (w : ZcWriter L W) → IsFlushed w (flush b write w)
  unfolding flush
  flush-IsFlushed w =
      let l = b.flush w.buf in
      let c = lw.count (b.bytes l) w.sink in
      let le : c ≤ length (lb.readable l) =
        omega (arith, lw.count_le (b.bytes l) w.sink, ap length (lb.bytes_lem l)) in
      let d = dropped_lem c l le in
      rw (lw.num_lem (b.bytes l) w.sink) (record {
        same =
            rw (lw.written-write (b.bytes l) w.sink, d.0)
              (append_assoc (lw.written w.sink) (take c (b.bytes l)) (drop c (lb.readable l))
                ∙ ap (λ s. lw.written w.sink ++ s)
                    (ap (λ s. take c s ++ drop c (lb.readable l)) (lb.bytes_lem l)
                      ∙ take-append-drop c (lb.readable l)
                      ∙ lb.readable-flush w.buf)
                ∙ sym (append_assoc (lw.written w.sink) (lb.readable w.buf) (lb.pending w.buf)));
        empty = d.1 ∙ lb.pending-flush w.buf;
        all = λ e.
            d.0
            ∙ drop_all (lb.readable l) c
                (lw.count_all (b.bytes l) w.sink e ∙ ap length (lb.bytes_lem l));
      })

  -- What `Malloc` and the copy leave allocated.
  pending-put :
      (p : List ℕ) (w : ZcWriter L W)
      → lb.pending w.buf ≡ []
      → (b.malloc (length p) w.buf).0 ≡ none
      → lb.pending (b.write_at (b.malloc_len w.buf) p (b.malloc (length p) w.buf).1) ≡ p
  pending-put p w clean e =
      let (fresh, size, is_fresh) = lb.pending-malloc (length p) w.buf e in
      let start : b.malloc_len w.buf ≡ 0 = lb.malloc_len_lem w.buf ∙ ap length clean in
      let allocated : lb.pending (b.malloc (length p) w.buf).1 ≡ fresh =
        is_fresh ∙ ap (λ s. s ++ fresh) clean in
      rw start (
        lb.pending-write_at 0 p (b.malloc (length p) w.buf).1
          (omega (arith, ap length allocated, size))
        ∙ ap (λ s. p ++ s)
            (drop_all (lb.pending (b.malloc (length p) w.buf).1) (0 + length p)
              (omega (arith, ap length allocated, size)))
        ∙ append-nil p)

  -- What `ioWriter.Write` leaves: without an error everything is written, with one the count is 0.
  pub record IsWritten (p : List ℕ) (w : ZcWriter L W) (x : (ℕ × Option Err) × ZcWriter L W)
      : Type 0 where
    pub empty : lb.pending x.1.buf ≡ []
    pub all :
        (x.0).1 ≡ none
        → ((x.0).0 ≡ length p) × (lw.written x.1.sink ≡ output w ++ p) × (lb.readable x.1.buf ≡ [])
    pub failed : (e : Err) → (x.0).1 ≡ some e → (x.0).0 ≡ 0

  flushed-IsWritten :
      (p : List ℕ) (w w' : ZcWriter L W) (x : Option Err × ZcWriter L W)
      → output w' ≡ output w
      → lb.pending w'.buf ≡ p
      → IsFlushed w' x
      → IsWritten p w (flushed (length p) x)
  flushed-IsWritten p w w' (some e, w'') same is_p h = record {
    empty = h.empty;
    all = λ f. cc;
    failed = λ e' f. refl;
  }
  flushed-IsWritten p w w' (none, w'') same is_p h = record {
    empty = h.empty;
    all = λ f. (
      refl,
      sym (append-nil _)
          ∙ ap (λ s. lw.written w''.sink ++ s) (sym (h.all refl))
          ∙ h.same
          ∙ rw (same, is_p) refl,
      h.all refl,
    );
    failed = λ e f. cc;
  }

  pub io_write-IsWritten :
      (p : List ℕ) (w : ZcWriter L W)
      → lb.pending w.buf ≡ []
      → IsWritten p w (io_write (zc_writes b write) p w)
  unfolding io_write malloc malloc_len write_at
  io_write-IsWritten p w clean = elim (Option-cases (b.malloc (length p) w.buf).0) [
    | inl e ↦
        let m = (b.malloc (length p) w.buf).1 in
        let w' : ZcWriter L W = record w { buf = b.write_at (b.malloc_len w.buf) p m } in
        rw e (
          flushed-IsWritten p w w' (flush b write w')
            (ap (λ s. lw.written w.sink ++ s)
              (lb.readable-write_at _ p m ∙ lb.readable-malloc (length p) w.buf))
            (pending-put p w clean e) (flush-IsFlushed w'))
    | inr (x, e) ↦ rw e (record {
      empty = lb.pending-malloc_failed (length p) w.buf e ∙ clean;
      all = λ f. cc;
      failed = λ e' f. refl;
    })
  ]
