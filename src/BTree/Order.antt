-- ===== src/BTree/Order.antt =====
-- What a B-tree stands for: a list of items in the order of their ranks, one item for each rank.
use gocore.Common.{
  ◌<◌, ◌≤◌, ◌≡◌, refl, true, List, [], ◌∷◌, ◌++◌, Option, none, some, arith, if◌then◌else◌, All,
  Bool-cases, inl, inr,
}
use gocore.BTree.Items.{Item, less}

abbrev pub Below : Item → List Item → Type 0
Below x = All (λ y. y.rank < x.rank)

abbrev pub Above : Item → List Item → Type 0
Above x = All (λ y. x.rank < y.rank)

abbrev pub IsSorted : List Item → Type 0
IsSorted [] = Unit
IsSorted (x ∷ s) = Above x s × IsSorted s

-- Insert, or replace the item of the same rank.
abbrev pub put : Item → List Item → List Item
put x [] = x ∷ []
put x (y ∷ s) = if less x y then x ∷ y ∷ s else if less y x then y ∷ put x s else x ∷ s

-- The item of the same rank.
abbrev pub get_item : Item → List Item → Option Item
get_item x [] = none
get_item x (y ∷ s) = if less x y then none else if less y x then get_item x s else some y

pub All-append_left {ℓ} : {A : Type ℓ} (P : A → Type 0) (a b : List A) → All P (a ++ b) → All P a
All-append_left P [] b h = tt
All-append_left P (x ∷ a) b h = (h.0, All-append_left P a b h.1)

pub All-append_right {ℓ} : {A : Type ℓ} (P : A → Type 0) (a b : List A) → All P (a ++ b) → All P b
All-append_right P [] b h = h
All-append_right P (x ∷ a) b h = All-append_right P a b h.1

pub All-append {ℓ} :
    {A : Type ℓ} (P : A → Type 0) (a b : List A) → All P a → All P b → All P (a ++ b)
All-append P [] b h k = k
All-append P (x ∷ a) b h k = (h.0, All-append P a b h.1 k)

pub IsSorted-append_left : (a b : List Item) → IsSorted (a ++ b) → IsSorted a
IsSorted-append_left [] b h = tt
IsSorted-append_left (x ∷ a) b h =
    (All-append_left (λ y. x.rank < y.rank) a b h.0, IsSorted-append_left a b h.1)

pub IsSorted-append_right : (a b : List Item) → IsSorted (a ++ b) → IsSorted b
IsSorted-append_right [] b h = h
IsSorted-append_right (x ∷ a) b h = IsSorted-append_right a b h.1

pub Above-trans : (x y : Item) (s : List Item) → x.rank ≤ y.rank → Above y s → Above x s
Above-trans x y [] h a = tt
Above-trans x y (z ∷ s) h a = (omega (arith, a), Above-trans x y s h a.1)

pub Below-of_middle : (a : List Item) (y : Item) (b : List Item) → IsSorted (a ++ y ∷ b) → Below y a
Below-of_middle [] y b h = tt
Below-of_middle (x ∷ a) y b h =
    ((All-append_right (λ z. x.rank < z.rank) a (y ∷ b) h.0).0, Below-of_middle a y b h.1)

pub Below-trans : (x y : Item) (s : List Item) → y.rank < x.rank → Below y s → Below x s
Below-trans x y [] h a = tt
Below-trans x y (z ∷ s) h a = (omega (arith, a), Below-trans x y s h a.1)

-- Lower items on the left are passed.
pub put-append_low : (x : Item) (a b : List Item) → Below x a → put x (a ++ b) ≡ a ++ put x b
put-append_low x [] b h = refl
put-append_low x (y ∷ a) b h = ground (arith, put-append_low x a b)

pub get_item-append_low :
    (x : Item) (a b : List Item) → Below x a → get_item x (a ++ b) ≡ get_item x b
get_item-append_low x [] b h = refl
get_item-append_low x (y ∷ a) b h = ground (arith, get_item-append_low x a b)

-- A higher item stops the search.
pub put-append_high :
    (x y : Item) (a b : List Item) → less x y ≡ true → put x (a ++ y ∷ b) ≡ put x a ++ y ∷ b
put-append_high x y [] b h = ground arith
put-append_high x y (z ∷ a) b h = ground (arith, put-append_high x y a b)

pub get_item-append_high :
    (x y : Item) (a b : List Item) → less x y ≡ true → get_item x (a ++ y ∷ b) ≡ get_item x a
get_item-append_high x y [] b h = ground arith
get_item-append_high x y (z ∷ a) b h = ground (arith, get_item-append_high x y a b)

Above-put : (z x : Item) (s : List Item) → z.rank < x.rank → Above z s → Above z (put x s)
Above-put z x [] h a = (h, tt)
Above-put z x (y ∷ s) h a = ground (arith, Above-put z x s)

-- `put` keeps the order.
pub put-IsSorted : (x : Item) (s : List Item) → IsSorted s → IsSorted (put x s)
put-IsSorted x [] h = (tt, tt)
put-IsSorted x (y ∷ s) h = elim (Bool-cases (less x y)) [
  | inl low ↦ rw low ((ground arith, Above-trans x y s (ground arith) h.0), h)
  | inr e ↦ rw e (elim (Bool-cases (less y x)) [
    | inl high ↦ rw high (Above-put y x s (ground arith) h.0, put-IsSorted x s h.1)
    | inr same ↦ rw same (Above-trans x y s (ground arith) h.0, h.1)
  ])
]
