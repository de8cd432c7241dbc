-- ===== src/Netpoll/ZcReader/Waits.antt =====
-- netpoll/nocopy_readwriter.go: `waitRead` returns, and the methods behind it read the stream.
use mathlib.Core.List.{append_assoc}
use gocore.Common.{
  ℕ, zero, suc, ◌+◌, ◌<◌, ◌≤◌, ◌≡◌, refl, sym, ap, ◌∙◌, inl, inr, true, false, List, [], ◌++◌,
  Option, none, some, ltb, length, length-append, length-take, take, take-append-drop, arith,
  Bool-cases, Option-cases,
}
use gocore.Common.Run.{Returns, Returns-bind, Returns-map}
use gocore.Netpoll.Buffer.{LinkBuffer, BufferLaws, IoReader, ReaderLaws, Err}
use gocore.Netpoll.ZcReader.{
  ZcReader, fill_once, fill_loop, fill, wait_read, block4k, max_read_cycle, read_binary, waiting,
  behind,
}
use gocore.Netpoll.ZcReader.Stream.{
  total, buffered, IsRead, IsFilled, filled, unfilled, fill_once-IsFilled, IsFilled-IsFetched,
  IsRead-refl, IsRead-trans, fill_loop-IsRead,
}

apart : {x : Err} → some x ≡ none → ⊥
apart h = cc

-- Without an error a read gives a byte at least.
abbrev pub Progress : {S : Type 0} → IoReader S → Type 0
Progress {S} read =
    (n : ℕ) (s : S) → 0 < n → (read n s).0.error ≡ none → 0 < length (read n s).0.bytes

module _ {L S : Type 0} {b : LinkBuffer L} {read : IoReader S} (lb : BufferLaws b)
    (lr : ReaderLaws read) where
  -- Where `waitRead` gives no error there are enough bytes.
  pub record IsWaited (n : ℕ) (r : ZcReader L S) (x : Option Err × ZcReader L S) : Type 0 where
    pub is_read : IsRead lb lr n r x.1
    pub enough : x.0 ≡ none → n ≤ buffered lb lr x.1

  -- What a read of `n` bytes gives, and leaves.
  pub record IsDelivered (n : ℕ) (r : ZcReader L S) (x : (List ℕ × Option Err) × ZcReader L S)
      : Type 0 where
    pub stream : (x.0).0 ++ total lb lr x.1 ≡ total lb lr r
    pub size : length (x.0).0 ≡ (elim (x.0).1 [ none ↦ n | some e ↦ 0 ])
    pub empty : lb.pending x.1.buf ≡ []

module _ {L S : Type 0} {b : LinkBuffer L} {read : IoReader S} (lb : BufferLaws b)
    (lr : ReaderLaws read) (progress : Progress read) where
  fill_once-grows :
      (r : ZcReader L S)
      → lb.pending r.buf ≡ []
      → (fill_once b read r).0 ≡ none
      → buffered lb lr r < buffered lb lr (fill_once b read r).1
  fill_once-grows r clean h = grows (fill_once-IsFilled lb lr r clean) h
    where
      grows :
          {x : Option Err × ZcReader L S}
          → IsFilled lb lr r x
          → x.0 ≡ none
          → buffered lb lr r < buffered lb lr x.1
      grows (unfilled e h k) f = absurd (apart (sym h ∙ f))
      grows (filled e k) f = omega (
        arith,
        ap length k.appended,
        length-append (lb.readable r.buf) (read block4k r.source).0.bytes,
        progress block4k r.source (omega arith) (sym e ∙ f),
      )

  fill_loop-grows :
      (turns n : ℕ) (r : ZcReader L S)
      → lb.pending r.buf ≡ []
      → ltb (b.len r.buf) n ≡ true
      → (fill_loop b read (suc turns) n r).0 ≡ none
      → buffered lb lr r < buffered lb lr (fill_loop b read (suc turns) n r).1
  unfolding fill_loop
  fill_loop-grows turns n r clean short h = elim (Option-cases (fill_once b read r).0) [
    | inl e ↦
        let first = IsFilled-IsFetched lb lr (fill_once-IsFilled lb lr r clean) in
        let rest = fill_loop-IsRead lb lr turns n (fill_once b read r).1 first.empty in
        rw (short, e) (omega (arith, fill_once-grows r clean e, rest.least))
    | inr (x, e) ↦ absurd (apart (sym e ∙ (rw (short, e) at h)))
  ]

  -- A call of `fill` that is needed, and succeeds.
  fill-grows :
      (n : ℕ) (r : ZcReader L S)
      → lb.pending r.buf ≡ []
      → ltb (b.len r.buf) n ≡ true
      → (fill b read n r).0 ≡ none
      → buffered lb lr r < buffered lb lr (fill b read n r).1
  unfolding fill
  fill-grows n r clean short h = fill_loop-grows 15 n r clean short h

  fill-IsRead :
      (n : ℕ) (r : ZcReader L S) → lb.pending r.buf ≡ [] → IsRead lb lr n r (fill b read n r).1
  unfolding fill
  fill-IsRead n r clean = fill_loop-IsRead lb lr max_read_cycle n r clean

  pub wait_read-IsWaited :
      (fuel n : ℕ) (r : ZcReader L S)
      → lb.pending r.buf ≡ []
      → n ≤ buffered lb lr r + fuel
      → Returns (IsWaited lb lr n r) (wait_read b read fuel n r)
  unfolding wait_read
  wait_read-IsWaited zero n r clean le =
      let enough : ltb (b.len r.buf) n ≡ false = ground (arith, lb.len_lem r.buf) in
      rw enough (record { is_read = IsRead-refl lb lr n r clean; enough = λ e. omega (arith, le) })
  wait_read-IsWaited (suc fuel) n r clean le = elim (Bool-cases (ltb (b.len r.buf) n)) [
    | inl short ↦ elim (Option-cases (fill b read n r).0) [
      | inl e ↦
          let first = fill-IsRead n r clean in
          rw (short, e)
            (Returns-map (IsWaited lb lr n (fill b read n r).1) (IsWaited lb lr n r)
              (wait_read b read fuel n (fill b read n r).1)
              (wait_read-IsWaited fuel n (fill b read n r).1 first.empty
                (omega (arith, le, fill-grows n r clean short e)))
              λ x k. record { is_read = IsRead-trans lb lr first k.is_read; enough = k.enough })
      | inr (x, e) ↦
          rw (short, e) (record { is_read = fill-IsRead n r clean; enough = λ f. absurd (apart f) })
    ]
    | inr enough ↦ rw enough (record {
      is_read = IsRead-refl lb lr n r clean;
      enough = λ e. ground (arith, lb.len_lem r.buf);
    })
  ]

  behind-IsDelivered :
      (n : ℕ) (r : ZcReader L S) (x : Option Err × ZcReader L S)
      → IsWaited lb lr n r x
      → IsDelivered lb lr n r (behind b read [] (b.read_binary n) x)
  behind-IsDelivered n r (some e, r') h = record {
    stream = h.is_read.same;
    size = refl;
    empty = h.is_read.empty;
  }
  behind-IsDelivered n r (none, r') h =
      let (got, left) = lb.read_binary_lem n r'.buf (h.enough refl) in
      record {
        stream =
            rw (got, left)
              (sym (append_assoc (take n (lb.readable r'.buf)) _ _)
                ∙ ap (λ s. s ++ lr.stream r'.source) (take-append-drop n (lb.readable r'.buf))
                ∙ h.is_read.same);
        size = rw got (omega (arith, length-take n (lb.readable r'.buf), h.enough refl));
        empty = lb.pending-read_binary n r'.buf ∙ h.is_read.empty;
      }

  -- A read of `n` bytes returns, if `waitRead` may call `fill` as often as there are bytes missing, and the reader gives
  -- a byte or an error each time. Without an error it gives exactly the next `n` bytes of the stream, behind those that
  -- were buffered, and with one it gives none and loses none: what it gives and what is left are, in order, what there
  -- was.
  pub read_binary-IsDelivered :
      (fuel n : ℕ) (r : ZcReader L S)
      → lb.pending r.buf ≡ []
      → n ≤ buffered lb lr r + fuel
      → Returns (IsDelivered lb lr n r) (read_binary b read fuel n r)
  unfolding read_binary waiting
  read_binary-IsDelivered fuel n r clean le =
      Returns-bind (IsWaited lb lr n r) (IsDelivered lb lr n r) (wait_read b read fuel n r) _
        (wait_read-IsWaited fuel n r clean le) (behind-IsDelivered n r)
