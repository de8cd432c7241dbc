-- ===== src/Netpoll/Polls/Managed.antt =====
-- netpoll/poll_manager.go: which pollers the manager has, and what is closed.
use gocore.Common.{
  ℕ, zero, suc, ◌+◌, ◌-◌, ◌<◌, ◌≤◌, ◌≡◌, refl, ap, inl, inr, List, [], ◌∷◌, ◌++◌, Option, some, ltb,
  ◌==◌, if◌then◌else◌, length, length-append, get_elem?, get_elem?_of_lt, drop, arith, from_some,
  ltb→lt, Bool-cases,
}
use gocore.Common.Run.{Returns, Returns-map}
use gocore.Netpoll.Polls.{Manager, close_polls, close_poll, open_polls, open_poll, shrink}

abbrev pub count : ℕ → List ℕ → ℕ
count p [] = 0
count p (x ∷ xs) = (if x == p then 1 else 0) + count p xs

pub count-append : (p : ℕ) (xs ys : List ℕ) → count p (xs ++ ys) ≡ count p xs + count p ys
count-append p [] ys = omega arith
count-append p (x ∷ xs) ys = omega (arith, count-append p xs ys)

count-drop :
    (p : ℕ) (xs : List ℕ) (i : ℕ) {x : ℕ}
    → get_elem? xs i ≡ some x
    → count p (drop i xs) ≡ (if x == p then 1 else 0) + count p (drop (suc i) xs)
count-drop p [] i e = cc
count-drop p (y ∷ xs) zero {x} e =
    ap (λ z. (if z == p then 1 else 0) + count p xs) (ap (from_some x) e)
count-drop p (y ∷ xs) (suc i) e = count-drop p xs i e

count-drop_all : (p : ℕ) (xs : List ℕ) (i : ℕ) → length xs ≤ i → count p (drop i xs) ≡ 0
count-drop_all p [] zero h = refl
count-drop_all p [] (suc i) h = refl
count-drop_all p (x ∷ xs) zero h = elim h [ ]
count-drop_all p (x ∷ xs) (suc i) h = count-drop_all p xs i (omega (arith, h))

-- 1 for the pollers that were opened, and 0 for the numbers behind them.
abbrev pub once : ℕ → ℕ → ℕ
once p opened = if ltb p opened then 1 else 0

abbrev pub closing : List ℕ → List ℕ → List ℕ
closing [] closed = closed
closing (p ∷ ps) closed = closing ps (p ∷ closed)

count-closing :
    (p : ℕ) (ps closed : List ℕ) → count p (closing ps closed) ≡ count p ps + count p closed
count-closing p [] closed = omega arith
count-closing p (q ∷ ps) closed = omega (arith, count-closing p ps (q ∷ closed))

module _ {B : Type 0} where
  -- Every poller that was opened is the manager's or closed, once, and waits.
  pub record IsOwned (m : Manager B) : Type 0 where
    pub owned : (p : ℕ) → count p m.polls + count p m.closed ≡ once p m.opened
    pub waits : (p : ℕ) → count p m.waiting ≡ once p m.opened

  pub close_polls_lem :
      (ps : List ℕ) (m : Manager B) → close_polls ps m ≡ record m { closed = closing ps m.closed }
  unfolding close_polls
  close_polls_lem [] m = refl
  close_polls_lem (p ∷ ps) m = close_polls_lem ps (close_poll p m)

  -- The manager gives up its pollers.
  pub close_polls-IsOwned :
      (m : Manager B) (n : ℕ) (b : Option B)
      → IsOwned m
      → IsOwned (record (close_polls m.polls m) { num_loops = n; balance = b; polls = [] })
  close_polls-IsOwned m n b h = rw (close_polls_lem m.polls m) (record {
    owned = λ p. omega (arith, count-closing p m.polls m.closed, h.owned p);
    waits = h.waits;
  })

  open_poll-IsOwned : (m : Manager B) → IsOwned m → IsOwned (open_poll m)
  open_poll-IsOwned m h = record {
    owned = λ p. ground (arith, count-append p m.polls (m.opened ∷ []), h.owned p);
    waits = λ p. ground (arith, h.waits p);
  }

  -- What the loop of `Run` leaves.
  pub record IsOpened (n : ℕ) (m m' : Manager B) : Type 0 where
    pub is_owned : IsOwned m'
    pub size : length m'.polls ≡ length m.polls + n
    pub same : (m'.balance ≡ m.balance) × (m'.num_loops ≡ m.num_loops)

  pub open_polls-IsOpened : (n : ℕ) (m : Manager B) → IsOwned m → IsOpened n m (open_polls n m)
  unfolding open_polls
  open_polls-IsOpened zero m h = record { is_owned = h; size = omega arith; same = (refl, refl) }
  open_polls-IsOpened (suc n) m h =
      let k = open_polls-IsOpened n (open_poll m) (open_poll-IsOwned m h) in
      record {
        is_owned = k.is_owned;
        size = omega (arith, k.size, length-append m.polls (m.opened ∷ []));
        same = k.same;
      }

  -- What the loop of `SetNumLoops` leaves.
  pub record IsShrunk (n idx : ℕ) (kept : List ℕ) (m : Manager B) (r : List ℕ × Manager B)
      : Type 0 where
    pub size : length r.0 ≡ length kept + (n - idx)
    pub counted :
        (p : ℕ)
        → count p r.0 + count p (r.1).closed
          ≡ count p kept + count p (drop idx m.polls) + count p m.closed
    pub same : r.1 ≡ record m { closed = (r.1).closed }

  -- A poller that is kept, and one that is closed.
  IsShrunk-kept :
      {n idx p : ℕ} {kept : List ℕ} {m : Manager B} (r : List ℕ × Manager B)
      → idx < n
      → get_elem? m.polls idx ≡ some p
      → IsShrunk n (suc idx) (kept ++ p ∷ []) m r
      → IsShrunk n idx kept m r
  IsShrunk-kept {idx} {p} {kept} {m} r h e k = record {
    size = omega (arith, k.size, length-append kept (p ∷ []));
    counted =
        λ q. omega (arith, k.counted q, count-append q kept (p ∷ []), count-drop q m.polls idx e);
    same = k.same;
  }

  IsShrunk-closed :
      {n idx p : ℕ} {kept : List ℕ} {m : Manager B} (r : List ℕ × Manager B)
      → n ≤ idx
      → get_elem? m.polls idx ≡ some p
      → IsShrunk n (suc idx) kept (close_poll p m) r
      → IsShrunk n idx kept m r
  IsShrunk-closed {idx} {p} {m} r h e k = record {
    size = omega (arith, k.size);
    counted = λ q. omega (arith, k.counted q, count-drop q m.polls idx e);
    same = k.same;
  }

  pub shrink-IsShrunk :
      (n turns idx : ℕ) (kept : List ℕ) (m : Manager B)
      → idx + turns ≡ length m.polls
      → n ≤ idx + turns
      → Returns (IsShrunk n idx kept m) (shrink n turns idx kept m)
  unfolding shrink
  shrink-IsShrunk n zero idx kept m e h = record {
    size = omega (arith, h);
    counted = λ p. omega (arith, count-drop_all p m.polls idx (omega (arith, e)));
    same = refl;
  }
  shrink-IsShrunk n (suc turns) idx kept m e h =
      let (p, there) = get_elem?_of_lt m.polls idx (omega (arith, e)) in
      rw there (elim (Bool-cases (ltb idx n)) [
        | inl small ↦ rw small (
            Returns-map _ _ _
              (shrink-IsShrunk n turns (suc idx) (kept ++ p ∷ []) m (omega (arith, e))
                (omega (arith, h)))
              λ r. IsShrunk-kept r (ltb→lt _ _ small) there)
        | inr large ↦ rw large (
            Returns-map _ _ _
              (shrink-IsShrunk n turns (suc idx) kept (close_poll p m) (omega (arith, e))
                (omega (arith, h)))
              λ r. IsShrunk-closed r (ground arith) there)
      ])
