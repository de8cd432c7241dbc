-- ===== src/Netpoll/Connection/Lines.antt =====
-- netpoll/connection_impl.go: `Until` reads to the first delimiter.
use mathlib.Core.List.{append_assoc}
use gocore.Common.{
  ℕ, zero, suc, ◌+◌, ◌<◌, ◌≤◌, ◌≡◌, ◌≢◌, refl, sym, ap, ◌∙◌, inl, inr, List, [], ◌∷◌, ◌++◌, Option,
  none, some, ltb, length, get_elem?, take, drop, take-append-drop, length-take, length-append,
  drop-length, arith, Option-cases, Bool-cases, ltb→lt,
}
use gocore.Common.Run.{Returns, Returns-map}
use gocore.Netpoll.Connection.{ConnErr}
use gocore.Netpoll.Connection.Until.{Input, until, until_loop, next, the_rest}

-- The bytes that are buffered, and those that are still to come. `waitRead` only moves bytes of the second to the
-- end of the first, and as many as it was asked for unless it fails.
pub record InputLaws {S : Type 0} (o : Input S) : Type 0 where
  pub readable : S → List ℕ
  pub incoming : S → List ℕ
  pub arrived : ℕ → S → List ℕ
  pub len_lem : (s : S) → o.len s ≡ length (readable s)
  pub readable-wait_read :
      (n : ℕ) (s : S) → readable (o.wait_read n s).1 ≡ readable s ++ arrived n s
  pub incoming-wait_read :
      (n : ℕ) (s : S) → arrived n s ++ incoming (o.wait_read n s).1 ≡ incoming s
  pub enough :
      (n : ℕ) (s : S) → (o.wait_read n s).0 ≡ none → n ≤ length (readable (o.wait_read n s).1)
  pub found :
      (delim n : ℕ) (s : S) {i : ℕ}
      → o.index_byte delim n s ≡ some i
      → (n ≤ i)
        × (get_elem? (readable s) i ≡ some delim)
        × ((j : ℕ) → n ≤ j → j < i → get_elem? (readable s) j ≢ some delim)
  pub not_found :
      (delim n : ℕ) (s : S)
      → o.index_byte delim n s ≡ none
      → (j : ℕ) → n ≤ j
      → get_elem? (readable s) j ≢ some delim
  pub next_lem :
      (n : ℕ) (s : S)
      → n ≤ length (readable s)
      → ((o.next n s).0 ≡ (take n (readable s), none))
        × (readable (o.next n s).1 ≡ drop n (readable s))
  pub incoming-next : (n : ℕ) (s : S) → incoming (o.next n s).1 ≡ incoming s
  pub ready : (n : ℕ) (s : S) → n ≤ length (readable s) → o.wait_read n s ≡ (none, s)

get_elem?-append :
    (xs ys : List ℕ) (j : ℕ) → j < length xs → get_elem? (xs ++ ys) j ≡ get_elem? xs j
get_elem?-append [] ys j h = elim h [ ]
get_elem?-append (x ∷ xs) ys zero h = refl
get_elem?-append (x ∷ xs) ys (suc j) h = get_elem?-append xs ys j (omega (arith, h))

get_elem?-take : (n : ℕ) (xs : List ℕ) (j : ℕ) → j < n → get_elem? (take n xs) j ≡ get_elem? xs j
get_elem?-take zero xs j h = elim h [ ]
get_elem?-take (suc n) [] j h = refl
get_elem?-take (suc n) (x ∷ xs) zero h = refl
get_elem?-take (suc n) (x ∷ xs) (suc j) h = get_elem?-take n xs j (omega (arith, h))

get_elem?_lt : (xs : List ℕ) (i : ℕ) {x : ℕ} → get_elem? xs i ≡ some x → i < length xs
get_elem?_lt [] i e = cc
get_elem?_lt (y ∷ xs) zero e = omega arith
get_elem?_lt (y ∷ xs) (suc i) e = omega (arith, get_elem?_lt xs i e)

-- A line ends with the delimiter, which is nowhere before.
pub record IsLine (delim : ℕ) (line : List ℕ) : Type 0 where
  pub last : ℕ
  pub size : length line ≡ last + 1
  pub ends : get_elem? line last ≡ some delim
  pub inside : (j : ℕ) → j < last → get_elem? line j ≢ some delim

-- No delimiter among the first `n` bytes.
abbrev Without : ℕ → ℕ → List ℕ → Type 0
Without delim n bs = (j : ℕ) → j < n → get_elem? bs j ≢ some delim

module _ {S : Type 0} {o : Input S} (laws : InputLaws o) where
  abbrev pub total : S → List ℕ
  total s = laws.readable s ++ laws.incoming s

  -- What `Until` gives: a line, or an error with everything that was buffered.
  pub data Gives (delim : ℕ) (s : S) (x : (List ℕ × Option ConnErr) × S) : Type 0 where
    a_line :
        (x.0).1 ≡ none → IsLine delim (x.0).0 → (x.0).0 ++ total x.1 ≡ total s → Gives delim s x
    the_buffer :
        (e : ConnErr)
        → (x.0).1 ≡ some e
        → laws.readable x.1 ≡ []
        → (x.0).0 ++ total x.1 ≡ total s
        → Gives delim s x

  total-wait_read : (n : ℕ) (s : S) → total (o.wait_read n s).1 ≡ total s
  total-wait_read n s = rw (laws.readable-wait_read n s) (
      append_assoc (laws.readable s) (laws.arrived n s) _
      ∙ ap (λ t. laws.readable s ++ t) (laws.incoming-wait_read n s))

  total-next :
      (n : ℕ) (s : S)
      → n ≤ length (laws.readable s)
      → (o.next n s).0.0 ++ total (o.next n s).1 ≡ total s
  total-next n s h =
      let (got, left) = laws.next_lem n s h in
      rw (got, left, laws.incoming-next n s)
        (sym (append_assoc (take n (laws.readable s)) (drop n (laws.readable s)) _)
          ∙ ap (λ t. t ++ laws.incoming s) (take-append-drop n (laws.readable s)))

  found-IsLine :
      (delim n i : ℕ) (s : S)
      → Without delim n (laws.readable s)
      → o.index_byte delim n s ≡ some i
      → IsLine delim (take (i + 1) (laws.readable s))
  found-IsLine delim n i s without e =
      let (le, at_, before) = laws.found delim n s e in
      let bs = laws.readable s in
      record {
        last = i;
        size = omega (arith, length-take (i + 1) bs, get_elem?_lt bs i at_);
        ends = get_elem?-take (i + 1) bs i (omega arith) ∙ at_;
        inside = λ j lt f. elim (Bool-cases (ltb j n)) [
          | inl early ↦
              without j (ltb→lt j n early)
                (sym (get_elem?-take (i + 1) bs j (omega (arith, lt))) ∙ f)
          | inr late ↦
              before j (ground arith) lt (sym (get_elem?-take (i + 1) bs j (omega (arith, lt))) ∙ f)
        ];
      }

  next-Gives :
      (delim n i : ℕ) (s : S)
      → Without delim n (laws.readable s)
      → o.index_byte delim n s ≡ some i
      → Gives delim s (next o (i + 1) s)
  unfolding next
  next-Gives delim n i s without e =
      let lt = get_elem?_lt (laws.readable s) i (laws.found delim n s e).1 in
      rw (laws.ready (i + 1) s (omega (arith, lt))) (
        a_line (ap (λ y. y.1) (laws.next_lem (i + 1) s (omega (arith, lt))).0)
          (rw (laws.next_lem (i + 1) s (omega (arith, lt))).0 (found-IsLine delim n i s without e))
          (total-next (i + 1) s (omega (arith, lt))))

  the_rest-Gives : (delim : ℕ) (e : ConnErr) (s : S) → Gives delim s (the_rest o e s)
  the_rest-Gives delim e s =
      let le : o.len s ≤ length (laws.readable s) = omega (arith, laws.len_lem s) in
      the_buffer e refl
        ((laws.next_lem (o.len s) s le).1 ∙ rw (laws.len_lem s) (drop-length (laws.readable s)))
        (total-next (o.len s) s le)

  Gives-trans :
      (delim : ℕ) {s s' : S} (x : (List ℕ × Option ConnErr) × S)
      → total s' ≡ total s
      → Gives delim s' x
      → Gives delim s x
  Gives-trans delim x e (a_line n h f) = a_line n h (f ∙ e)
  Gives-trans delim x e (the_buffer r n h f) = the_buffer r n h (f ∙ e)

  until_loop-Gives :
      (fuel delim n : ℕ) (s : S)
      → n ≤ length (laws.readable s)
      → Without delim n (laws.readable s)
      → length (total s) < n + fuel
      → Returns (Gives delim s) (until_loop o fuel delim n s)
  unfolding until_loop
  until_loop-Gives zero delim n s le without lt =
      absurd (omega (arith, le, lt, length-append (laws.readable s) (laws.incoming s)))
  until_loop-Gives (suc fuel) delim n s le without lt =
      let s' = (o.wait_read (n + 1) s).1 in
      let same = total-wait_read (n + 1) s in
      let without' : Without delim n (laws.readable s') = λ j h f. without j h (
        sym (get_elem?-append (laws.readable s) (laws.arrived (n + 1) s) j (omega (arith, h, le)))
        ∙ ap (λ t. get_elem? t j) (sym (laws.readable-wait_read (n + 1) s))
        ∙ f) in
      elim (Option-cases (o.wait_read (n + 1) s).0) [
        | inr (e, failed) ↦
            rw (until_loop, failed) (Gives-trans delim _ same (the_rest-Gives delim e s'))
        | inl fine ↦ elim (Option-cases (o.index_byte delim n s')) [
          | inr (i, e) ↦
              rw (until_loop, fine, e)
                (Gives-trans delim _ same (next-Gives delim n i s' without' e))
          | inl e ↦
              rw (until_loop, fine, e)
                (Returns-map (Gives delim s') (Gives delim s)
                  (until_loop o fuel delim (o.len s') s')
                  (until_loop-Gives fuel delim (o.len s') s' (omega (arith, laws.len_lem s'))
                    (λ j h f. elim (Bool-cases (ltb j n)) [
                      | inl early ↦ without' j (ltb→lt j n early) f
                      | inr late ↦ laws.not_found delim n s' e j (ground arith) f
                    ])
                    (omega
                      (arith, lt, ap length same, laws.len_lem s', laws.enough (n + 1) s fine)))
                  λ x. Gives-trans delim x same)
        ]
      ]

  -- Over any `waitRead` and buffer with these laws; Arrivals has those of the connection.
  pub until-Gives :
      (fuel delim : ℕ) (s : S)
      → length (total s) < fuel
      → Returns (Gives delim s) (until o fuel delim s)
  unfolding until
  until-Gives fuel delim s lt =
      until_loop-Gives fuel delim 0 s (omega arith) (λ j h f. absurd (omega (arith, h)))
        (omega (arith, lt))
