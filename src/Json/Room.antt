-- ===== src/Json/Room.antt =====
-- jsonUtil.go: the cache as a map, as long as all that is stored fits into it.
use mathlib.Core.List.{Perm}
use mathlib.Core.Path.{subst}
use gocore.Common.{
  ℕ, suc, ◌+◌, ◌≤◌, ◌≡◌, refl, sym, ◌∙◌, inl, inr, List, [], ◌∷◌, true, false, Option, none, some,
  arith, ltb, ◌==◌, if◌then◌else◌, length, Bool-cases, Option-cases, ==_iff,
}
use gocore.Common.Run.{ok, Returns, Returns-bind, Returns-map}
use gocore.Common.Dicts.{Dict, find, find-put}
use gocore.Heap.{insert, empty}
use gocore.Heap.Order.{IsHeap}
use gocore.Heap.Entries.{entries}
use gocore.Heap.Insert.{insert-IsHeap}
use gocore.Json.Cache.{Encoder, Bytes, fresh, store, store_new, load, arrange, enter}
use gocore.Json.History.{Call, storing, loading, calls}

-- The data is in the cache, beside what was there, and the counts say so.
pub record IsEntered (size : ℕ → ℕ) (address n : ℕ) (data_ : Bytes) (e e' : Encoder) : Type 0 where
  pub heap : IsHeap size e'.obsolete (suc n)
  pub capacity : e'.capacity ≡ e.capacity + length data_
  pub loads : e'.cache_nums ≡ e.cache_nums
  pub holds : (a : ℕ) → find a e'.cache ≡ (if address == a then some data_ else find a e.cache)

store-absent :
    (e : Encoder) (address : ℕ) (data_ : Bytes)
    → find address e.cache ≡ none
    → store e address data_ ≡ store_new e address data_
unfolding store
store-absent e address data_ h = rw (store, h) refl

-- A second store under an address changes nothing.
pub store-found :
    (e : Encoder) (address : ℕ) (data_ : Bytes) {d : Bytes}
    → find address e.cache ≡ some d
    → store e address data_ ≡ ok e
unfolding store
store-found e address data_ h = rw (store, h) refl

-- New data that fits is stored.
pub store-IsEntered :
    (size : ℕ → ℕ) (e : Encoder) (address n : ℕ) (data_ : Bytes)
    → IsHeap size e.obsolete n
    → size address ≡ length data_
    → find address e.cache ≡ none
    → e.capacity + length data_ ≤ 1024
    → e.cache_nums ≤ 1000
    → Returns (IsEntered size address n data_ e) (store e address data_)
unfolding store_new enter arrange
store-IsEntered size e address n data_ heap sized absent room few =
    let fits : ltb 1024 (e.capacity + length data_) ≡ false = ground arith in
    let early : ltb 1000 e.cache_nums ≡ false = ground arith in
    rw (store-absent e address data_ absent, store_new, fits, early)
      (Returns-bind (λ h'. IsHeap size h' (suc n)) (IsEntered size address n data_ e)
        (insert e.obsolete (length data_) address) _
        (Returns-map
          (λ h'.
            IsHeap size h' (suc n) × Perm (entries h' (suc n)) (address ∷ entries e.obsolete n))
          (λ h'. IsHeap size h' (suc n)) (insert e.obsolete (length data_) address)
          (insert-IsHeap size e.obsolete n (length data_) address heap sized) (λ h' r. r.0))
        (λ h' ordered. record {
          heap = ordered;
          capacity = refl;
          loads = refl;
          holds = λ a. find-put address a data_ e.cache;
        }))

-- The abstract cache: what was stored first under an address.
unfoldable pub first_stored : List Call → ℕ → Option Bytes
first_stored [] a = none
first_stored (storing address data_ ∷ cs) a = if address == a then some data_ else first_stored cs a
first_stored (loading address ∷ cs) a = first_stored cs a

-- The bytes of all data that the calls store, and the number of loads.
unfoldable pub stored_bytes : List Call → ℕ
stored_bytes [] = 0
stored_bytes (storing address data_ ∷ cs) = length data_ + stored_bytes cs
stored_bytes (loading address ∷ cs) = stored_bytes cs

unfoldable pub loads_of : List Call → ℕ
loads_of [] = 0
loads_of (storing address data_ ∷ cs) = loads_of cs
loads_of (loading address ∷ cs) = suc (loads_of cs)

abbrev or_else : Option Bytes → Option Bytes → Option Bytes
or_else none o = o
or_else (some d) o = some d

-- The size of a new address is the length of what is stored first under it.
abbrev IsSized : (ℕ → ℕ) → List Call → Encoder → Type 0
IsSized size cs e =
    (a : ℕ) (d : Bytes) → find a e.cache ≡ none → first_stored cs a ≡ some d → size a ≡ length d

abbrev Reflects : List Call → Encoder → Encoder → Type 0
Reflects cs e e' = (a : ℕ) → find a e'.cache ≡ or_else (find a e.cache) (first_stored cs a)

some_none {ℓ} : {A : Type ℓ} {d : Bytes} → some d ≡ none → A
some_none h = cc

or_else-none : (o : Option Bytes) → o ≡ or_else o none
or_else-none none = refl
or_else-none (some d) = refl

pub same_address : (a : ℕ) → (a == a) ≡ true
same_address a = ground arith

find_same :
    (address a : ℕ) (d : Dict Bytes) {o : Option Bytes}
    → (address == a) ≡ true
    → find address d ≡ o
    → find a d ≡ o
find_same address a d {o} t h = subst (λ b. find b d ≡ o) ((==_iff address a).0 t) h

-- What the rest of the calls starts from, after a store of new data and after one that changes nothing.
module _ (size : ℕ → ℕ) (address : ℕ) (data_ : Bytes) (cs : List Call) (e : Encoder) where
  entered-IsSized :
      (n : ℕ) (e' : Encoder)
      → IsSized size (storing address data_ ∷ cs) e
      → IsEntered size address n data_ e e'
      → IsSized size cs e'
  unfolding first_stored
  entered-IsSized n e' sized s a d h k = elim (Bool-cases (address == a)) [
    | inl t ↦ some_none (sym (rw t at (s.holds a)) ∙ h)
    | inr f ↦ sized a d (sym (rw f at (s.holds a)) ∙ h) (rw f k)
  ]

  entered-Reflects :
      (n : ℕ) (e' e2 : Encoder)
      → find address e.cache ≡ none
      → IsEntered size address n data_ e e'
      → Reflects cs e' e2
      → Reflects (storing address data_ ∷ cs) e e2
  unfolding first_stored
  entered-Reflects n e' e2 absent s r a = elim (Bool-cases (address == a)) [
    | inl t ↦ r a ∙ rw (s.holds a, t, find_same address a e.cache t absent) refl
    | inr f ↦ r a ∙ rw (s.holds a, f) refl
  ]

  found-IsSized :
      {x : Bytes}
      → find address e.cache ≡ some x
      → IsSized size (storing address data_ ∷ cs) e
      → IsSized size cs e
  unfolding first_stored
  found-IsSized there sized a d h k = elim (Bool-cases (address == a)) [
    | inl t ↦ some_none (sym (find_same address a e.cache t there) ∙ h)
    | inr f ↦ sized a d h (rw f k)
  ]

  found-Reflects :
      {x : Bytes} (e2 : Encoder)
      → find address e.cache ≡ some x
      → Reflects cs e e2
      → Reflects (storing address data_ ∷ cs) e e2
  unfolding first_stored
  found-Reflects e2 there r a = elim (Bool-cases (address == a)) [
    | inl t ↦ r a ∙ rw (find_same address a e.cache t there) refl
    | inr f ↦ rw f (r a)
  ]

within :
    (size : ℕ → ℕ) (cs : List Call) (e : Encoder) (n : ℕ)
    → IsHeap size e.obsolete n
    → IsSized size cs e
    → e.capacity + stored_bytes cs ≤ 1024
    → e.cache_nums + loads_of cs ≤ 1000
    → Returns (Reflects cs e) (calls cs e)
unfolding calls load first_stored stored_bytes loads_of
within size [] e n heap sized room few = λ a. or_else-none (find a e.cache)
within size (loading address ∷ cs) e n heap sized room few =
    within size cs (load e address).1 n heap sized room (omega arith)
within size (storing address data_ ∷ cs) e n heap sized room few =
    elim (Option-cases (find address e.cache)) [
      | inl absent ↦
          Returns-bind (IsEntered size address n data_ e) (Reflects (storing address data_ ∷ cs) e)
            (store e address data_) _
            (store-IsEntered size e address n data_ heap
              (sized address data_ absent (rw (same_address address) refl)) absent (omega arith)
              (omega arith))
            (λ e' s.
              Returns-map (Reflects cs e') (Reflects (storing address data_ ∷ cs) e) (calls cs e')
                (within size cs e' (suc n) s.heap
                  (entered-IsSized size address data_ cs e n e' sized s) (omega (arith, s.capacity))
                  (omega (arith, s.loads)))
                (λ e2 r. entered-Reflects size address data_ cs e n e' e2 absent s r))
      | inr there ↦ rw (store-found e address data_ there.1) (
          Returns-map (Reflects cs e) (Reflects (storing address data_ ∷ cs) e) (calls cs e)
            (within size cs e n heap (found-IsSized size address data_ cs e there.1 sized)
              (omega arith) few)
            (λ e2 r. found-Reflects size address data_ cs e e2 there.1 r))
    ]

pub empty-IsHeap : (size : ℕ → ℕ) → IsHeap size empty 0
empty-IsHeap size = record {
  slots = record { sized = refl; room = omega arith; paired = refl };
  ordered = λ c p q. absurd (omega arith);
  beside = λ i p q. absurd (omega arith);
}

abbrev size_of : Option Bytes → ℕ
size_of none = 0
size_of (some d) = length d

-- Calls that store no more than the capacity and load no more than a thousand times return, and a load finds
-- exactly what was stored first under its address.
pub calls-first_stored :
    (cs : List Call)
    → stored_bytes cs ≤ 1024
    → loads_of cs ≤ 1000
    → Returns (λ e. (a : ℕ) → (load e a).0 ≡ first_stored cs a) (calls cs fresh)
unfolding load find
calls-first_stored cs room few =
    within (λ a. size_of (first_stored cs a)) cs fresh 0 (empty-IsHeap _) (λ a d h k. rw k refl)
      (omega arith) (omega arith)
