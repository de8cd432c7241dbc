-- ===== src/BTree/Find.antt =====
-- `items.find` by binary search is a linear scan.
use gocore.Common.{
  ℕ, zero, suc, ◌+◌, ◌-◌, ◌/◌, ◌≤◌, ◌<◌, ◌≡◌, refl, ap, ◌∙◌, Bool, true, false, not, ◌&&◌, List, [],
  ◌∷◌, ltb, leb, arith, if◌then◌else◌, length, get_or,
}
use gocore.BTree.Items.{Item, less, search_loop, search, find}
use gocore.BTree.Order.{IsSorted, Above}

search_loop-eq :
    (rounds : ℕ) (f : ℕ → Bool) (n q i j : ℕ)
    → ((k : ℕ) → k < n → f k ≡ leb q k)
    → i ≤ q
    → q ≤ j
    → j ≤ n
    → j ≤ i + rounds
    → search_loop rounds f i j ≡ q
unfolding search_loop
search_loop-eq zero f n q i j s a b c d = omega arith
search_loop-eq (suc rounds) f n q i j s a b c d = ground (
  arith,
  s ((i + j) / 2),
  search_loop-eq rounds f n q i ((i + j) / 2) s,
  search_loop-eq rounds f n q ((i + j) / 2 + 1) j s,
)

-- `sort.Search` finds the border of a predicate that is false below `q` and true from there on.
pub search-eq :
    (n q : ℕ) (f : ℕ → Bool) → ((k : ℕ) → k < n → f k ≡ leb q k) → q ≤ n → search n f ≡ q
unfolding search
search-eq n q f s p = search_loop-eq n f n q 0 n s (omega arith) p (omega arith) (omega arith)

-- The first slot whose item is not below `x`, and whether that item has the rank of `x`.
abbrev pub scan : List Item → Item → ℕ × Bool
scan [] x = (0, false)
scan (y ∷ s) x =
    if less y x then (let (i, found) = scan s x in (suc i, found)) else (0, not (less x y))

-- How many items do not stand above `x`.
abbrev upper : List Item → Item → ℕ
upper [] x = 0
upper (y ∷ s) x = if less x y then 0 else suc (upper s x)

upper_le : (s : List Item) (x : Item) → upper s x ≤ length s
upper_le [] x = omega arith
upper_le (y ∷ s) x = ground (arith, upper_le s x)

Above-all :
    (x : Item) (s : List Item) (d : Item) (k : ℕ)
    → Above x s
    → k < length s
    → x.rank < (get_or s k d).rank
Above-all x [] d k h p = elim p [ ]
Above-all x (y ∷ s) d zero h p = h.0
Above-all x (y ∷ s) d (suc k) h p = Above-all x s d k h.1 (omega arith)

upper-border :
    (s : List Item) (x d : Item) (k : ℕ)
    → IsSorted s
    → k < length s
    → less x (get_or s k d) ≡ leb (upper s x) k
upper-border [] x d k h p = elim p [ ]
upper-border (y ∷ s) x d zero h p = ground arith
upper-border (y ∷ s) x d (suc k) h p = ground (arith, upper-border s x d k, Above-all y s d k h.0)

-- What `find` makes of the border.
abbrev decide_found : List Item → Item → ℕ → ℕ × Bool
decide_found s x i =
    if ltb 0 i && not (less (get_or s (i - 1) x) x) then (i - 1, true) else (i, false)

upper_zero : (x : Item) (s : List Item) → Above x s → upper s x ≡ 0
upper_zero x [] h = refl
upper_zero x (y ∷ s) h = ground arith

upper_of_Above : (x y : Item) (s : List Item) → Above y s → less y x ≡ false → upper s x ≡ 0
upper_of_Above x y [] h e = refl
upper_of_Above x y (z ∷ s) h e = ground arith

shift :
    (y : Item) (s : List Item) (x : Item) (i : ℕ)
    → less y x ≡ true
    → decide_found (y ∷ s) x (suc i) ≡ ((decide_found s x i).0 + 1, (decide_found s x i).1)
shift y s x zero h = ground arith
shift y s x (suc i) h = ground arith

decide_found-scan :
    (s : List Item) (x : Item) → IsSorted s → decide_found s x (upper s x) ≡ scan s x
decide_found-scan [] x h = refl
decide_found-scan (y ∷ s) x h =
    ground (arith, shift y s x (upper s x), decide_found-scan s x, upper_of_Above x y s h.0)

-- On sorted items the binary search of `find` gives what a linear scan gives: the slot of the item of
-- the same rank, or the slot where it belongs.
pub find-scan : (s : List Item) (x : Item) → IsSorted s → find s x ≡ scan s x
unfolding find
find-scan s x h =
    ap (decide_found s x) (
      search-eq (length s) (upper s x) (λ k. less x (get_or s k x))
        (λ k p. upper-border s x x k h p) (upper_le s x))
    ∙ decide_found-scan s x h
