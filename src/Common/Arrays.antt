-- ===== src/Common/Arrays.antt =====
-- Slices of machine words: a read or a write out of range panics, and a missing entry reads as 0.
use gocore.Common.{
  ℕ, zero, suc, ◌<◌, ◌≡◌, ◌≢◌, refl, List, [], ◌∷◌, ◌++◌, arith, ◌==◌, if◌then◌else◌, length,
  get_elem?, set, get_or, length-set, ap,
}
use gocore.Common.Run.{Run, ok, or_panic, ◌>>=◌}

-- `a[i]`
abbrev pub load {ℓ} : {A : Type ℓ} → List A → ℕ → Run A
load a i = or_panic (get_elem? a i)

-- `a[i] = v`
abbrev pub store {ℓ} : {A : Type ℓ} → List A → ℕ → A → Run (List A)
store a i v = load a i >>= λ _. ok (set a i v)

-- What a slice holds after its entries at `i` and `j` have changed places.
abbrev pub exchange : List ℕ → ℕ → ℕ → List ℕ
exchange a i j = set (set a i (get_or a j 0)) j (get_or a i 0)

pub load-ok : (a : List ℕ) (i : ℕ) → i < length a → load a i ≡ ok (get_or a i 0)
load-ok [] i h = elim h [ ]
load-ok (x ∷ a) zero h = refl
load-ok (x ∷ a) (suc i) h = load-ok a i (omega arith)

pub store-ok : (a : List ℕ) (i v : ℕ) → i < length a → store a i v ≡ ok (set a i v)
store-ok a i v h = rw (load-ok a i h)

pub get_or-set :
    (a : List ℕ) (i j v : ℕ)
    → i < length a
    → get_or (set a i v) j 0 ≡ (if i == j then v else get_or a j 0)
get_or-set [] i j v h = elim h [ ]
get_or-set (x ∷ a) zero zero v h = refl
get_or-set (x ∷ a) zero (suc j) v h = ground arith
get_or-set (x ∷ a) (suc i) zero v h = ground arith
get_or-set (x ∷ a) (suc i) (suc j) v h = ground (arith, get_or-set a i j v)

pub length-exchange : (a : List ℕ) (i j : ℕ) → length (exchange a i j) ≡ length a
length-exchange a i j = simp length-set

pub get_or-exchange :
    (a : List ℕ) (i j c : ℕ)
    → i < length a
    → j < length a
    → get_or (exchange a i j) c 0
      ≡ (if j == c then get_or a i 0 else if i == c then get_or a j 0 else get_or a c 0)
get_or-exchange a i j c hi hj = rw (
  get_or-set (set a i (get_or a j 0)) j c (get_or a i 0) (rw length-set hj),
  get_or-set a i c (get_or a j 0) hi,
)

pub get_or-append : (a b : List ℕ) (i : ℕ) → i < length a → get_or (a ++ b) i 0 ≡ get_or a i 0
get_or-append [] b i h = elim h [ ]
get_or-append (x ∷ a) b zero h = refl
get_or-append (x ∷ a) b (suc i) h = get_or-append a b i (omega arith)

pub set-set : (a : List ℕ) (i v w : ℕ) → set (set a i v) i w ≡ set a i w
set-set [] i v w = refl
set-set (x ∷ a) zero v w = refl
set-set (x ∷ a) (suc i) v w = ap (◌∷◌ x) (set-set a i v w)

pub set_comm : (a : List ℕ) (i j v w : ℕ) → i ≢ j → set (set a i v) j w ≡ set (set a j w) i v
set_comm [] i j v w h = refl
set_comm (x ∷ a) zero zero v w h = absurd (h refl)
set_comm (x ∷ a) zero (suc j) v w h = refl
set_comm (x ∷ a) (suc i) zero v w h = refl
set_comm (x ∷ a) (suc i) (suc j) v w h = ap (◌∷◌ x) (set_comm a i j v w (λ e. h (ap suc e)))
