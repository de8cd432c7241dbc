-- ===== src/Gin/Maps.antt =====
-- Strings as lists of bytes and maps as association lists, for gin/.
use gocore.Common.{
  ℕ, suc, List, [], ◌∷◌, ◌≡◌, refl, Bool, true, false, ◌&&◌, Option, none, some, ◌==◌,
  if◌then◌else◌, Bool-cases, inl, inr, ==_iff,
}

abbrev pub Str : Type 0
Str = List ℕ

abbrev pub eq_str : Str → Str → Bool
eq_str [] [] = true
eq_str [] (b ∷ t) = false
eq_str (a ∷ s) [] = false
eq_str (a ∷ s) (b ∷ t) = a == b && eq_str s t

pub eq_str_refl : (s : Str) → eq_str s s ≡ true
eq_str_refl [] = refl
eq_str_refl (a ∷ s) = rw ((==_iff a a).1 refl, eq_str_refl s) refl

pub eq_str_sound : (s t : Str) → eq_str s t ≡ true → s ≡ t
eq_str_sound [] [] h = refl
eq_str_sound [] (b ∷ t) h = cc
eq_str_sound (a ∷ s) [] h = cc
eq_str_sound (a ∷ s) (b ∷ t) h = elim (Bool-cases (a == b)) [
  | inl e ↦ rw ((==_iff a b).0 e, eq_str_sound s t (rw e at h)) refl
  | inr e ↦ cc
]

-- A map with string keys; `lookup` is `v, ok := m[k]`.
abbrev pub Map {ℓ} : Type ℓ → Type ℓ
Map A = List (Str × A)

module _ {ℓ} {A : Type ℓ} where
  abbrev pub lookup : Map A → Str → Option A
  lookup [] k = none
  lookup ((a, v) ∷ m) k = if eq_str a k then some v else lookup m k

  abbrev pub put : Map A → Str → A → Map A
  put [] k v = (k, v) ∷ []
  put ((a, w) ∷ m) k v = if eq_str a k then (a, v) ∷ m else (a, w) ∷ put m k v

  pub lookup-put_self : (m : Map A) (k : Str) (v : A) → lookup (put m k v) k ≡ some v
  lookup-put_self [] k v = rw (eq_str_refl k) refl
  lookup-put_self ((a, w) ∷ m) k v = elim (Bool-cases (eq_str a k)) [
    | inl e ↦ rw (e, e)
    | inr e ↦ rw (e, e) (lookup-put_self m k v)
  ]

  pub lookup-put_ne :
      (m : Map A) (k j : Str) (v : A) → eq_str k j ≡ false → lookup (put m k v) j ≡ lookup m j
  lookup-put_ne [] k j v h = rw h
  lookup-put_ne ((a, w) ∷ m) k j v h = elim (Bool-cases (eq_str a k)) [
    | inl e ↦ rw (e, eq_str_sound a k e, h)
    | inr e ↦ rw e (rw (lookup-put_ne m k j v h))
  ]

-- `strings.IndexByte`, with `none` for -1.
abbrev pub index_byte : Str → ℕ → Option ℕ
index_byte [] b = none
index_byte (a ∷ s) b =
    if a == b then some 0 else elim (index_byte s b) [ none ↦ none | some i ↦ some (suc i) ]
