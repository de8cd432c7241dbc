-- ===== src/Netpoll/ZcReader/Stream.antt =====
-- netpoll/nocopy_readwriter.go: the bytes that zcReader reads are those of the stream, in order.
use gocore.Common.{
  ℕ, zero, suc, ◌+◌, ◌<◌, ◌≤◌, ◌≡◌, refl, ap, ◌∙◌, ◌⊎◌, ltb→lt, inl, inr, List, [], ◌++◌, Option,
  some, ltb, length, take-append, arith, Bool-cases, Option-cases, length-append,
}
use mathlib.Core.List.{append_assoc}
use gocore.Netpoll.Buffer.{LinkBuffer, BufferLaws, IoReader, ReaderLaws, Err}
use gocore.Netpoll.ZcReader.{ZcReader, fill_once, fill_loop, taken, block4k}

module _ {L S : Type 0} {b : LinkBuffer L} {read : IoReader S} (lb : BufferLaws b)
    (lr : ReaderLaws read) where
  -- What is left of the stream, with what is buffered.
  abbrev pub total : ZcReader L S → List ℕ
  total r = lb.readable r.buf ++ lr.stream r.source

  abbrev pub buffered : ZcReader L S → ℕ
  buffered r = length (lb.readable r.buf)

  -- Nothing is lost, nothing is left allocated, and at most `most` bytes are taken from the stream.
  pub record IsFetched (n : ℕ) (r r' : ZcReader L S) : Type 0 where
    pub same : total r' ≡ total r
    pub empty : lb.pending r'.buf ≡ []
    pub least : buffered r ≤ buffered r'
    pub most : buffered r' ≤ buffered r + n

  -- What is written to the start of the allocated bytes, and acknowledged.
  pending-acked :
      (bs : List ℕ) (l : L)
      → length bs ≤ length (lb.pending l)
      → lb.pending (b.malloc_ack (length bs) (b.write_at 0 bs l)) ≡ bs
  pending-acked bs l h =
      rw
        (
          lb.pending-malloc_ack (length bs) (b.write_at 0 bs l),
          lb.pending-write_at 0 bs l (omega (arith, h)),
        )
        (take-append bs _)

  -- A read into an allocated slice puts its bytes behind those of the buffer.
  pub record IsTaken (r r' : ZcReader L S) : Type 0 where
    pub appended : lb.readable r'.buf ≡ lb.readable r.buf ++ (read block4k r.source).0.bytes
    pub source : r'.source ≡ (read block4k r.source).1
    pub empty : lb.pending r'.buf ≡ []

  taken-IsTaken :
      (r : ZcReader L S) (l : L)
      → lb.readable l ≡ lb.readable r.buf
      → block4k ≤ length (lb.pending l)
      → (taken b read 0 (read block4k r.source) l).0 ≡ (read block4k r.source).0.error
        × IsTaken r (taken b read 0 (read block4k r.source) l).1
  taken-IsTaken r l same room =
      let bs = (read block4k r.source).0.bytes in
      let acked = pending-acked bs l (omega (arith, lr.bytes_le block4k r.source, room)) in
      rw (lr.num_lem block4k r.source) (
        (
          refl,
          record {
            appended =
                rw (lb.readable-flush, acked, lb.readable-malloc_ack, lb.readable-write_at, same)
                  refl;
            source = refl;
            empty = lb.pending-flush _;
          },
        ))

  IsTaken-IsFetched : {r r' : ZcReader L S} → IsTaken r r' → IsFetched block4k r r'
  IsTaken-IsFetched {r} {r'} h = record {
    same =
        rw (h.appended, h.source)
          (append_assoc (lb.readable r.buf) _ _
            ∙ ap (λ s. lb.readable r.buf ++ s) (lr.stream-read block4k r.source));
    empty = h.empty;
    least = omega (
      arith,
      ap length h.appended,
      length-append (lb.readable r.buf) (read block4k r.source).0.bytes,
    );
    most = omega (
      arith,
      ap length h.appended,
      length-append (lb.readable r.buf) (read block4k r.source).0.bytes,
      lr.bytes_le block4k r.source,
    );
  }

  -- `Malloc` fails, or a read is taken.
  pub data IsFilled (r : ZcReader L S) (x : Option Err × ZcReader L S) : Type 0 where
    unfilled : (e : Err) → x.0 ≡ some e → IsFetched block4k r x.1 → IsFilled r x
    filled : x.0 ≡ (read block4k r.source).0.error → IsTaken r x.1 → IsFilled r x

  pub fill_once-IsFilled :
      (r : ZcReader L S) → lb.pending r.buf ≡ [] → IsFilled r (fill_once b read r)
  unfolding fill_once
  fill_once-IsFilled r clean = elim (Option-cases (b.malloc block4k r.buf).0) [
    | inl e ↦
        rw (fill_once, e, lb.malloc_len_lem r.buf, clean)
          (let (fresh, size, is_fresh) = lb.pending-malloc block4k r.buf e in
            let t =
              taken-IsTaken r (b.malloc block4k r.buf).1 (lb.readable-malloc block4k r.buf)
                (omega (arith, ap length is_fresh, size, length-append (lb.pending r.buf) fresh)) in
            filled t.0 t.1)
    | inr (x, e) ↦
        rw (fill_once, e)
          (unfilled x refl (record {
            same = ap (λ s. s ++ lr.stream r.source) (lb.readable-malloc block4k r.buf);
            empty = lb.pending-malloc_failed block4k r.buf e ∙ clean;
            least = omega (arith, ap length (lb.readable-malloc block4k r.buf));
            most = omega (arith, ap length (lb.readable-malloc block4k r.buf));
          }))
  ]

  pub IsFilled-IsFetched :
      {r : ZcReader L S} {x : Option Err × ZcReader L S} → IsFilled r x → IsFetched block4k r x.1
  IsFilled-IsFetched (unfilled e h k) = k
  IsFilled-IsFetched (filled e k) = IsTaken-IsFetched k

  IsFetched-refl : (n : ℕ) (r : ZcReader L S) → lb.pending r.buf ≡ [] → IsFetched n r r
  IsFetched-refl n r clean = record {
    same = refl;
    empty = clean;
    least = omega arith;
    most = omega arith;
  }

  -- The loop stops short of `n` bytes before each read, so that it takes less than `n` bytes and a block.
  pub record IsRead (n : ℕ) (r r' : ZcReader L S) : Type 0 where
    pub same : total r' ≡ total r
    pub empty : lb.pending r'.buf ≡ []
    pub least : buffered r ≤ buffered r'
    pub bounded : (buffered r' ≤ buffered r) ⊎ (buffered r' < n + block4k)

  pub IsRead-refl : (n : ℕ) (r : ZcReader L S) → lb.pending r.buf ≡ [] → IsRead n r r
  IsRead-refl n r clean = record {
    same = refl;
    empty = clean;
    least = omega arith;
    bounded = inl (omega arith);
  }

  pub IsFetched-IsRead :
      {n : ℕ} {r r' : ZcReader L S} → buffered r < n → IsFetched block4k r r' → IsRead n r r'
  IsFetched-IsRead h k = record {
    same = k.same;
    empty = k.empty;
    least = k.least;
    bounded = inr (omega (arith, k.most));
  }

  pub IsRead-trans :
      {n : ℕ} {r r' r'' : ZcReader L S} → IsRead n r r' → IsRead n r' r'' → IsRead n r r''
  IsRead-trans h k = record {
    same = k.same ∙ h.same;
    empty = k.empty;
    least = omega (arith, h.least, k.least);
    bounded = elim k.bounded [
      | inl le ↦ elim h.bounded [
        | inl le' ↦ inl (omega (arith, le, le'))
        | inr lt ↦ inr (omega (arith, le, lt))
      ]
      | inr lt ↦ inr lt
    ];
  }

  pub fill_loop-IsRead :
      (turns n : ℕ) (r : ZcReader L S)
      → lb.pending r.buf ≡ []
      → IsRead n r (fill_loop b read turns n r).1
  unfolding fill_loop
  fill_loop-IsRead zero n r clean = IsRead-refl n r clean
  fill_loop-IsRead (suc turns) n r clean = elim (Bool-cases (ltb (b.len r.buf) n)) [
    | inl short ↦ rw short (
        let first =
          IsFetched-IsRead {n = n} (omega (arith, ltb→lt _ _ short, lb.len_lem r.buf))
            (IsFilled-IsFetched (fill_once-IsFilled r clean)) in
        elim (Option-cases (fill_once b read r).0) [
          | inl e ↦
              rw e
                (IsRead-trans first (fill_loop-IsRead turns n (fill_once b read r).1 first.empty))
          | inr (x, e) ↦ rw e first
        ])
    | inr enough ↦ rw enough (IsRead-refl n r clean)
  ]
