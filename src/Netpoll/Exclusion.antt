-- ===== src/Netpoll/Exclusion.antt =====
-- netpoll/fd_operator.go: any number of goroutines that use one operator, in any order.
use gocore.Common.{
  ℕ, ◌≡◌, sym, ◌∙◌, Bool, true, false, inl, inr, arith, ◌==◌, ==_iff, if◌then◌else◌, Bool-cases,
}
use gocore.Netpoll.{start, finish, inuse, unused}

-- The operator's word, and the goroutines between a `do` that said yes and their `done`.
pub record System : Type 0 where
  pub state : ℕ
  pub at_work : ℕ → Bool

abbrev pub mark : ℕ → Bool → (ℕ → Bool) → ℕ → Bool
mark i b at_work j = if i == j then b else at_work j

abbrev started : ℕ → System → System
started i s =
    let r = start s.state in
    record { state = r.1; at_work = if r.0 then mark i true s.at_work else s.at_work }

-- Only a goroutine at work calls `done`.
pub data Step : System → System → Type 0 where
  starts : (i : ℕ) {s : System} → Step s (started i s)
  finishes :
      (i : ℕ) {s : System}
      → s.at_work i ≡ true
      → Step s (record { state = finish s.state; at_work = mark i false s.at_work })
  inuses : {s : System} → Step s (record s { state = (inuse s.state).1 })
  unuses : {s : System} → Step s (record s { state = (unused s.state).1 })

pub data Steps : System → System → Type 0 where
  done : {s : System} → Steps s s
  next : {s s' s'' : System} → Step s s' → Steps s' s'' → Steps s s''

pub record IsExclusive (s : System) : Type 0 where
  pub busy : (i : ℕ) → s.at_work i ≡ true → s.state ≡ 2
  pub unique : (i j : ℕ) → s.at_work i ≡ true → s.at_work j ≡ true → i ≡ j

false_true {ℓ} : {A : Type ℓ} → false ≡ true → A
false_true h = cc

other_state {ℓ} : {A : Type ℓ} → (n : ℕ) → n ≡ 1 → n ≡ 2 → A
other_state n p q = absurd (omega (arith, p, q))

start_lem :
    (n : ℕ)
    → ((start n).0 ≡ true → (n ≡ 1) × ((start n).1 ≡ 2)) × ((start n).0 ≡ false → (start n).1 ≡ n)
unfolding start
start_lem n = ground arith

inuse_lem : (n : ℕ) → n ≡ 2 → (inuse n).1 ≡ 2
unfolding inuse
inuse_lem n h = ground arith

unused_lem : (n : ℕ) → n ≡ 2 → (unused n).1 ≡ 2
unfolding unused
unused_lem n h = ground arith

marked :
    (i j : ℕ) (s : System) → IsExclusive s → s.state ≡ 1 → mark i true s.at_work j ≡ true → i ≡ j
marked i j s h idle at_ = elim (Bool-cases (i == j)) [
  | inl same ↦ (==_iff i j).0 same
  | inr other ↦ other_state s.state idle (h.busy j (rw other at at_))
]

starts-IsExclusive : (i : ℕ) (s : System) → IsExclusive s → IsExclusive (started i s)
starts-IsExclusive i s h = elim (Bool-cases (start s.state).0) [
  | inl yes_ ↦ rw yes_ (taken ((start_lem s.state).0 yes_))
  | inr no_ ↦ rw (no_, (start_lem s.state).1 no_) h
]
  where
    taken :
        (s.state ≡ 1) × ((start s.state).1 ≡ 2)
        → IsExclusive (record { state = (start s.state).1; at_work = mark i true s.at_work })
    taken t = record {
      busy = λ j at_. t.1;
      unique = λ j k a b. sym (marked i j s h t.0 a) ∙ marked i k s h t.0 b;
    }

-- After `done` of the goroutine at work nobody is at work.
unmarked {ℓ} :
    {A : Type ℓ} (i j : ℕ) (s : System)
    → IsExclusive s
    → s.at_work i ≡ true
    → mark i false s.at_work j ≡ true
    → A
unmarked i j s h at_i at_j = elim (Bool-cases (i == j)) [
  | inl same ↦ false_true (rw same at at_j)
  | inr other ↦ false_true (sym other ∙ (==_iff i j).1 (h.unique i j at_i (rw other at at_j)))
]

Step-IsExclusive : {s s' : System} → Step s s' → IsExclusive s → IsExclusive s'
Step-IsExclusive (starts i {s}) h = starts-IsExclusive i s h
Step-IsExclusive (finishes i {s} at_) h = record {
  busy = λ j a. unmarked i j s h at_ a;
  unique = λ j k a b. unmarked i j s h at_ a;
}
Step-IsExclusive (inuses {s}) h = record {
  busy = λ j a. inuse_lem s.state (h.busy j a);
  unique = h.unique;
}
Step-IsExclusive (unuses {s}) h = record {
  busy = λ j a. unused_lem s.state (h.busy j a);
  unique = h.unique;
}

Steps-IsExclusive : {s s' : System} → Steps s s' → IsExclusive s → IsExclusive s'
Steps-IsExclusive done h = h
Steps-IsExclusive (next a b) h = Steps-IsExclusive b (Step-IsExclusive a h)

-- Whatever steps any number of goroutines take on an operator, in any order, at most one is between `do` and `done`,
-- and while it is, the state stays 2: the operator does not become unused under its hands.
pub one_at_work :
    {s s' : System}
    → ((i : ℕ) → s.at_work i ≡ false)
    → Steps s s'
    → ((i j : ℕ) → s'.at_work i ≡ true → s'.at_work j ≡ true → i ≡ j)
      × ((i : ℕ) → s'.at_work i ≡ true → s'.state ≡ 2)
one_at_work {s} free steps =
    let start_ : IsExclusive s = record {
      busy = λ i a. false_true (sym (free i) ∙ a);
      unique = λ i j a b. false_true (sym (free i) ∙ a);
    } in
    let h = Steps-IsExclusive steps start_ in (h.unique, h.busy)
