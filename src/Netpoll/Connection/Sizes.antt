-- ===== src/Netpoll/Connection/Sizes.antt =====
-- netpoll/connection_impl.go, connection_reactor.go: the sizes in which a connection books its buffer.
use native.Mathlib.Nat.{pow-suc, pow-le-pow_right}
use Prim.Native.Nat.{max}
use gocore.Common.{
  ℕ, suc, ◌*◌, ◌^◌, ◌<◌, ◌≤◌, ◌≡◌, refl, Bool, true, ◌&&◌, List, [], ◌∷◌, if◌then◌else◌, ltb,
  ltb→lt, ◌==◌, leb, arith, inl, inr, Bool-cases,
}
use gocore.Common.Int.{ℤ, pos, negsuc}
use gocore.Netpoll.Connection.{
  Conn, ConnBuffer, init, inputs, input_ack, release, output_ack, doubled, capped, wakes, if_empty,
  pagesize,
}

-- What the poller and the reader do to the sizes.
pub data Event : Type 0 where
  books : Event
  reads_bytes : ℤ → Event
  releases : Bool → Event
  sends_bytes : ℤ → Event

module _ {L : Type 0} (b : ConnBuffer L) (malloc_max : ℕ) (on_request : Conn L → Bool) where
  unfoldable pub handle : Event → Conn L → Conn L
  handle books c = inputs b malloc_max on_request c
  handle (reads_bytes n) c = input_ack b malloc_max on_request n c
  handle (releases taken) c = release b malloc_max on_request taken c
  handle (sends_bytes n) c = output_ack b malloc_max on_request n c

  unfoldable pub handle_all : List Event → Conn L → Conn L
  handle_all [] c = c
  handle_all (e ∷ es) c = handle_all es (handle e c)

module _ (m malloc_max : ℕ) (is_power : malloc_max ≡ 512 * 2 ^ m) where
  -- The book size is a power of two.
  record IsSize (size : ℕ) : Type 0 where
    exponent : ℕ
    power : size ≡ 512 * 2 ^ exponent
    at_most : exponent ≤ m

  IsSize-le : {size : ℕ} → IsSize size → size ≤ malloc_max
  IsSize-le h =
      let le = pow-le-pow_right {n = 2} (omega arith) h.at_most in
      omega (arith, h.power, is_power, le)

  smaller : (k : ℕ) → 512 * 2 ^ k < 512 * 2 ^ m → k < m
  smaller k h = elim (Bool-cases (ltb k m)) [
    | inl lt ↦ ltb→lt k m lt
    | inr ge ↦
        let le' : m ≤ k = ground arith in
        let le = pow-le-pow_right {n = 2} (omega arith) le' in absurd (omega (arith, h, le))
  ]

  doubled-IsSize : (n size : ℕ) → IsSize size → IsSize (doubled malloc_max n size)
  doubled-IsSize n size h = elim (Bool-cases ((n == size) && ltb size malloc_max)) [
    | inl e ↦ rw e (
        let lt : size < malloc_max = ground arith in
        record {
          exponent = suc h.exponent;
          power = omega (arith, h.power, pow-suc 2 h.exponent);
          at_most = smaller h.exponent (omega (arith, lt, h.power, is_power));
        })
    | inr e ↦ rw e h
  ]

  larger_le :
      (size largest : ℕ)
      → largest ≤ max pagesize malloc_max
      → (let size' = if ltb malloc_max size then malloc_max else size in
          if ltb largest size' then size' else largest)
        ≤ max pagesize malloc_max
  larger_le size largest h = ground arith

  capped_le : (size len : ℕ) → capped malloc_max size len ≤ max pagesize malloc_max
  capped_le size len = ground arith

  module _ {L : Type 0} where
    record IsSized (c : Conn L) : Type 0 where
      size : IsSize c.book_size
      largest : c.max_size ≤ max pagesize malloc_max

    IsSized-same :
        {c c' : Conn L}
        → c'.book_size ≡ c.book_size
        → c'.max_size ≡ c.max_size
        → IsSized c
        → IsSized c'
    IsSized-same e f h = record { size = rw e h.size; largest = rw f h.largest }

    wakes-IsSized : (needs : Bool) (len : ℕ) (c : Conn L) → IsSized c → IsSized (wakes needs len c)
    wakes-IsSized needs len c h = elim (Bool-cases (needs && leb c.wait_read_size len)) [
      | inl e ↦ rw e (IsSized-same refl refl h)
      | inr e ↦ rw e h
    ]

    module _ (b : ConnBuffer L) (on_request : Conn L → Bool) where
      input_ack-IsSized :
          (z : ℤ) (c : Conn L) → IsSized c → IsSized (input_ack b malloc_max on_request z c)
      unfolding input_ack
      input_ack-IsSized (negsuc n) c h = IsSized-same refl refl h
      input_ack-IsSized (pos n) c h = elim (Bool-cases (n == 0)) [
        | inl e ↦ rw e (IsSized-same refl refl h)
        | inr e ↦
            let r = b.book_ack n c.input in
            let c' : Conn L = record c {
              input = r.1;
              book_size = doubled malloc_max n c.book_size;
              max_size = capped malloc_max c.max_size r.0;
            } in
            let h' : IsSized c' = record {
              size = doubled-IsSize n c.book_size h.size;
              largest = capped_le c.max_size r.0;
            } in
            rw e (elim (Bool-cases (r.0 == n)) [
              | inl f ↦ rw f (wakes-IsSized (on_request c') r.0 c' h')
              | inr f ↦ rw f (wakes-IsSized true r.0 c' h')
            ])
      ]

      release-IsSized :
          (taken : Bool) (c : Conn L)
          → IsSized c
          → IsSized (release b malloc_max on_request taken c)
      unfolding release
      release-IsSized taken c h = elim (Bool-cases ((b.len c.input == 0) && taken)) [
        | inl e ↦ rw e (record {
          size = h.size;
          largest = larger_le (b.calc_max_size c.input) c.max_size h.largest;
        })
        | inr e ↦ rw e (IsSized-same refl refl h)
      ]

      if_empty-IsSized : (c : Conn L) → IsSized c → IsSized (if_empty b malloc_max on_request c)
      if_empty-IsSized c h = elim (Bool-cases (b.is_empty c.output)) [
        | inl e ↦ rw e (IsSized-same refl refl h)
        | inr e ↦ rw e h
      ]

      handle-IsSized :
          (e : Event) (c : Conn L) → IsSized c → IsSized (handle b malloc_max on_request e c)
      unfolding handle inputs output_ack
      handle-IsSized books c h = IsSized-same refl refl h
      handle-IsSized (reads_bytes n) c h = input_ack-IsSized n c h
      handle-IsSized (releases taken) c h = release-IsSized taken c h
      handle-IsSized (sends_bytes (negsuc n)) c h = if_empty-IsSized c h
      handle-IsSized (sends_bytes (pos n)) c h = elim (Bool-cases (ltb 0 n)) [
        | inl e ↦ rw e (if_empty-IsSized _ (IsSized-same refl refl h))
        | inr e ↦ rw e (if_empty-IsSized c h)
      ]

      handle_all-IsSized :
          (es : List Event) (c : Conn L)
          → IsSized c
          → IsSized (handle_all b malloc_max on_request es c)
      unfolding handle_all
      handle_all-IsSized [] c h = h
      handle_all-IsSized (e ∷ es) c h = handle_all-IsSized es _ (handle-IsSized e c h)

-- If `mallocMax` is 512 times a power of two, a new connection never books more than `mallocMax` at a time, however its
-- reads, sends and releases follow each other: the book size stays 512 times a power of two. Its size of a buffer stays
-- within the greater of `mallocMax` and the page size with which it starts.
pub handle_all-within :
    {L : Type 0} (b : ConnBuffer L) (on_request : Conn L → Bool) (m malloc_max : ℕ)
    → malloc_max ≡ 512 * 2 ^ m
    → (input output : L) (es : List Event)
    → ((k : ℕ) × ((handle_all b malloc_max on_request es (init input output)).book_size
          ≡ 512 * 2 ^ k))
      × ((handle_all b malloc_max on_request es (init input output)).book_size ≤ malloc_max)
      × ((handle_all b malloc_max on_request es (init input output)).max_size
          ≤ max pagesize malloc_max)
unfolding init
handle_all-within b on_request m malloc_max e input output es =
    let h = handle_all-IsSized m malloc_max e b on_request es (init input output) (record {
      size = record { exponent = 0; power = refl; at_most = omega arith };
      largest = omega arith;
    }) in
    ((h.size.exponent, h.size.power), IsSize-le m malloc_max e h.size, h.largest)
