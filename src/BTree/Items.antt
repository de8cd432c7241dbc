-- ===== src/BTree/Items.antt =====
-- B-Tree/btree.go: `Item`, the slices `items` and `children`, and `items.find`. An item is compared
-- by its rank alone, as `Int.Less` does; the payload is whatever else it carries.
use gocore.Common.{
  ℕ, zero, suc, ◌+◌, ◌-◌, ◌/◌, Bool, true, false, not, ◌&&◌, List, [], ◌∷◌, ltb, leb, if◌then◌else◌,
  length, get_or, take, drop,
}
use gocore.Common.Run.{Run, ok, panic, ◌>>=◌}

pub record Item : Type 0 where
  pub rank : ℕ
  pub payload : ℕ

abbrev pub less : Item → Item → Bool
less a b = ltb a.rank b.rank

-- The loop of `sort.Search` over `[i, j)`. The range shrinks in each round, so that `j - i` rounds
-- empty it.
unfoldable pub search_loop : ℕ → (ℕ → Bool) → ℕ → ℕ → ℕ
search_loop zero f i j = i
search_loop (suc rounds) f i j =
    let h = (i + j) / 2 in
    let lower = search_loop rounds f i h in
    let upper = search_loop rounds f (h + 1) j in
    if ltb i j then (if f h then lower else upper) else i

unfoldable pub search : ℕ → (ℕ → Bool) → ℕ
unfolding search_loop
search n f = search_loop n f 0 n

unfoldable pub find : List Item → Item → ℕ × Bool
unfolding search
find s item =
    let i = search (length s) (λ k. less item (get_or s k item)) in
    if ltb 0 i && not (less (get_or s (i - 1) item) item) then (i - 1, true) else (i, false)

module _ {A : Type 0} where
  -- `insertAt`: the slice grows by one, the tail moves up and the slot is written.
  unfoldable pub insert_at : List A → ℕ → A → Run (List A)
  insert_at s zero v = ok (v ∷ s)
  insert_at [] (suc i) v = panic
  insert_at (x ∷ s) (suc i) v = do rest ← insert_at s i v; ok (x ∷ rest)

  -- `removeAt`: the value at the slot, and the slice without it.
  unfoldable pub remove_at : List A → ℕ → Run (A × List A)
  remove_at [] i = panic
  remove_at (x ∷ s) zero = ok (x, s)
  remove_at (x ∷ s) (suc i) = do (v, rest) ← remove_at s i; ok (v, x ∷ rest)

  -- `pop`: the last value, and the slice without it.
  unfoldable pub pop : List A → Run (A × List A)
  pop [] = panic
  pop (x ∷ []) = ok (x, [])
  pop (x ∷ y ∷ s) = do (v, rest) ← pop (y ∷ s); ok (v, x ∷ rest)

  unfoldable pub truncate : List A → ℕ → Run (List A)
  truncate s index = if leb index (length s) then ok (take index s) else panic

  -- `s[low:]`
  unfoldable pub slice_from : List A → ℕ → Run (List A)
  slice_from s low = if leb low (length s) then ok (drop low s) else panic
