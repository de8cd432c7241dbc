-- ===== src/Common/Dicts.antt =====
-- Maps with numbers as keys, as association lists.
use Prim.Native.Nat.{ℕ}
use mathlib.Core.Path.{◌≡◌, refl}
use mathlib.Core.Logic.{inl, inr}
use mathlib.Core.List.{List, [], ◌∷◌}
use mathlib.Core.Option.{Option, none, some}
use native.Mathlib.Omega.{arith}
use gocore.Common.Tests.{◌==◌, if◌then◌else◌, Bool-cases}
use gocore.Common.Lists.{All}

abbrev pub Dict {ℓ} : Type ℓ → Type ℓ
Dict A = List (ℕ × A)

module _ {ℓ} {A : Type ℓ} where
  unfoldable pub find : ℕ → Dict A → Option A
  find k [] = none
  find k ((a, v) ∷ d) = if a == k then some v else find k d

  unfoldable pub put : ℕ → A → Dict A → Dict A
  put k v [] = (k, v) ∷ []
  put k v ((a, w) ∷ d) = if a == k then (k, v) ∷ d else (a, w) ∷ put k v d

  -- `delete(m, k)`
  unfoldable pub erase : ℕ → Dict A → Dict A
  erase k [] = []
  erase k ((a, w) ∷ d) = if a == k then erase k d else (a, w) ∷ erase k d

  pub find-put :
      (k j : ℕ) (v : A) (d : Dict A) → find j (put k v d) ≡ (if k == j then some v else find j d)
  unfolding find put
  find-put k j v [] = refl
  find-put k j v ((a, w) ∷ d) = ground (arith, find-put k j v d)

  pub find-erase : (k j : ℕ) (d : Dict A) → find j (erase k d) ≡ (if k == j then none else find j d)
  unfolding find erase
  find-erase k j [] = ground arith
  find-erase k j ((a, w) ∷ d) = ground (arith, find-erase k j d)

  pub All-put {κ} :
      (P : ℕ × A → Type κ) (k : ℕ) (v : A) (d : Dict A) → All P d → P (k, v) → All P (put k v d)
  unfolding put
  All-put P k v [] h p = (p, tt)
  All-put P k v ((a, w) ∷ d) h p = elim (Bool-cases (a == k)) [
    | inl e ↦ rw e (p, h.1)
    | inr e ↦ rw e (h.0, All-put P k v d h.1 p)
  ]

  pub All-erase {κ} : (P : ℕ × A → Type κ) (k : ℕ) (d : Dict A) → All P d → All P (erase k d)
  unfolding erase
  All-erase P k [] h = h
  All-erase P k ((a, w) ∷ d) h = elim (Bool-cases (a == k)) [
    | inl e ↦ rw e (All-erase P k d h.1)
    | inr e ↦ rw e (h.0, All-erase P k d h.1)
  ]
