-- ===== src/Netpoll/LineTests.antt =====
-- Buffers that are lists, and `Until` over a connection with them.
use gocore.Common.{
  ℕ, zero, suc, ◌<◌, ◌≤◌, ◌≡◌, ◌≢◌, refl, ap, inl, inr, false, List, [], ◌∷◌, ◌++◌, Option, none,
  some, if◌then◌else◌, length, get_elem?, take, drop, arith, Bool-cases, ◌==◌, from_some,
}
use gocore.Common.Run.{ok, Returns}
use gocore.Netpoll.Connection.{closed, read_timeout}
use gocore.Netpoll.Connection.Until.{until, until_loop, next}
use gocore.Netpoll.Connection.Lines.{Gives}
use gocore.Netpoll.Connection.Waiting.{
  InBuffer, Wire, arrives, fires, inactive, fill, ended, wait_loop, wait_read, input_of,
}
use gocore.Netpoll.Connection.Arrivals.{InLaws, input_Laws, until-input_of}

abbrev up : Option ℕ → Option ℕ
up none = none
up (some i) = some (suc i)

abbrev index_from : ℕ → ℕ → List ℕ → Option ℕ
index_from delim n [] = none
index_from delim zero (x ∷ xs) =
    let rest = index_from delim zero xs in if x == delim then some 0 else up rest
index_from delim (suc n) (x ∷ xs) = up (index_from delim n xs)

abbrev lists : InBuffer (List ℕ)
lists = record {
  len = length;
  put = λ bs l. l ++ bs;
  index_byte = index_from;
  next = λ n l. ((take n l, none), drop n l);
  release = λ l. (none, l);
}

-- What an index found is.
record IsFound (delim n : ℕ) (bs : List ℕ) (r : Option ℕ) : Type 0 where
  found :
      {i : ℕ}
      → r ≡ some i
      → (n ≤ i)
        × (get_elem? bs i ≡ some delim)
        × ((j : ℕ) → n ≤ j → j < i → get_elem? bs j ≢ some delim)
  missing : r ≡ none → (j : ℕ) → n ≤ j → get_elem? bs j ≢ some delim

up-some : (r : Option ℕ) {i : ℕ} → up r ≡ some i → (k : ℕ) × (r ≡ some k) × (suc k ≡ i)
up-some none e = cc
up-some (some k) e = (k, refl, ap (from_some 0) e)

up-none : (r : Option ℕ) → up r ≡ none → r ≡ none
up-none none e = refl
up-none (some k) e = cc

-- The bytes behind the first.
up-IsFound :
    (delim n m x : ℕ) (xs : List ℕ) (r : Option ℕ)
    → m ≤ suc n
    → (m ≤ 0 → get_elem? (x ∷ xs) 0 ≢ some delim)
    → ((j : ℕ) → m ≤ suc j → n ≤ j)
    → IsFound delim n xs r
    → IsFound delim m (x ∷ xs) (up r)
up-IsFound delim n m x xs r le first back h = record {
  found = λ e. let (k, e', same) = up-some r e in rw (← same) (known k e');
  missing = unknown;
}
  where
    before : (k : ℕ) → r ≡ some k → (j : ℕ) → m ≤ j → j < suc k → get_elem? (x ∷ xs) j ≢ some delim
    before k e zero le' lt = first le'
    before k e (suc j) le' lt = (h.found e).2 j (back j le') (omega (arith, lt))

    known :
        (k : ℕ)
        → r ≡ some k
        → (m ≤ suc k)
          × (get_elem? (x ∷ xs) (suc k) ≡ some delim)
          × ((j : ℕ) → m ≤ j → j < suc k → get_elem? (x ∷ xs) j ≢ some delim)
    known k e = (omega (arith, le, (h.found e).0), (h.found e).1, before k e)

    unknown : up r ≡ none → (j : ℕ) → m ≤ j → get_elem? (x ∷ xs) j ≢ some delim
    unknown e zero le' = first le'
    unknown e (suc j) le' = h.missing (up-none r e) j (back j le')

some_inj : {a b : ℕ} → some a ≡ some b → a ≡ b
some_inj h = ap (from_some 0) h

index_from-IsFound : (delim n : ℕ) (bs : List ℕ) → IsFound delim n bs (index_from delim n bs)
index_from-IsFound delim n [] = record { found = λ e. cc; missing = λ e j le f. cc }
index_from-IsFound delim zero (x ∷ xs) = elim (Bool-cases (x == delim)) [
  | inl e ↦ rw e (record {
    found = λ f.
        rw (← some_inj f)
          ((omega arith, ap some (ground arith), λ j le lt g. absurd (omega (arith, lt))));
    missing = λ f. cc;
  })
  | inr e ↦ rw e (
      up-IsFound delim 0 0 x xs _ (omega arith) (λ le f. other (some_inj f) e) (λ j le. omega arith)
        (index_from-IsFound delim 0 xs))
]
  where
    other : x ≡ delim → (x == delim) ≡ false → ⊥
    other f e = ground arith
index_from-IsFound delim (suc n) (x ∷ xs) =
    up-IsFound delim n (suc n) x xs _ (omega arith) (λ le f. absurd (omega (arith, le)))
      (λ j le. omega (arith, le)) (index_from-IsFound delim n xs)

abbrev lists_InLaws : InLaws lists
lists_InLaws = record {
  readable = λ l. l;
  len_lem = λ l. refl;
  readable-put = λ bs l. refl;
  found = λ delim n l. (index_from-IsFound delim n l).found;
  not_found = λ delim n l. (index_from-IsFound delim n l).missing;
  next_lem = λ n l h. (refl, refl);
}

-- Two bytes arrive, and then the peer closes the connection, with two more to read.
abbrev cut_off : Wire (List ℕ)
cut_off = record {
  buf = 65 ∷ [];
  coming = arrives (66 ∷ 67 ∷ []) ∷ [];
  ending = inactive false;
  unread = (10 ∷ 68 ∷ []) ∷ [];
  failure = closed;
  is_finalizing = false;
}

-- The last read of `fill` has the delimiter.
until_cut_off :
    until (input_of lists) 3 10 cut_off
    ≡ ok
        ((65 ∷ 66 ∷ 67 ∷ 10 ∷ [], none), record cut_off { buf = 68 ∷ []; coming = []; unread = [] })
unfolding until until_loop next wait_read wait_loop ended fill
until_cut_off = refl

-- The timer fires before the delimiter comes.
until_timer :
    (until (input_of lists) 3 10 (record cut_off { coming = fires ∷ [] }))
    ≡ ok ((65 ∷ [], some read_timeout), record cut_off { buf = []; coming = [] })
unfolding until until_loop next wait_read wait_loop
until_timer = refl

until-input_of_example :
    Returns (Gives (input_Laws lists_InLaws) 10 cut_off) (until (input_of lists) 6 10 cut_off)
until-input_of_example = until-input_of lists_InLaws 6 10 cut_off (omega arith)
