-- ===== src/Json/Refusals.antt =====
-- jsonUtil.go: encodings that are longer than the whole cache.
use gocore.Common.{
  ℕ, suc, ◌+◌, ◌≤◌, ◌<◌, ◌≡◌, refl, ap, ◌∙◌, List, [], ◌∷◌, true, false, arith, ltb, leb,
  if◌then◌else◌, length, inl, inr, Bool-cases,
}
use gocore.Common.Int.{◌+ℤ◌, ◌-ℤ◌, int64}
use gocore.Common.Run.{ok, panic}
use gocore.Common.Dicts.{find}
use gocore.Heap.{peek_max}
use gocore.Json.Cache.{Encoder, Bytes, fresh, store, store_new, make_room, drain, is_short}
use gocore.Json.History.{Call, storing, loading, calls}

-- Each call stores data that is longer than the cache.
abbrev pub AreLong : List Call → Type 0
AreLong [] = Unit
AreLong (storing address data_ ∷ cs) = (1024 < length data_) × AreLong cs
AreLong (loading address ∷ cs) = ⊥

-- The encoder that `init` builds, after refusals.
abbrev pub refused : ℕ → Encoder
refused times = record fresh { cache_invalid_times = times }

is_short_lem : (times : ℕ) (n : ℕ) → 1024 < n → is_short (refused times) 0 n ≡ true
unfolding int64
is_short_lem times n h = unfold ◌+ℤ◌ ◌-ℤ◌ in ground arith

store-refused :
    (times address : ℕ) (data_ : Bytes)
    → 1024 < length data_
    → store (refused times) address data_
      ≡ (if ltb times 10 then ok (refused (times + 1)) else panic)
unfolding store store_new find make_room peek_max drain
store-refused times address data_ h =
    let full : ltb 1024 (0 + length data_) ≡ true = ground arith in
    elim (Bool-cases (ltb times 10)) [
      | inl more ↦ rw (store_new, full, is_short_lem times (length data_) h, more) refl
      | inr last ↦
          let tenth : leb 10 times ≡ true = ground arith in
          rw (store_new, full, is_short_lem times (length data_) h, last, tenth) refl
    ]

same_count : (a b : ℕ) → a + 1 + b ≡ a + suc b
same_count a b = omega arith

refusals :
    (cs : List Call) (times : ℕ)
    → AreLong cs
    → times ≤ 10
    → calls cs (refused times)
      ≡ (if leb (times + length cs) 10 then ok (refused (times + length cs)) else panic)
unfolding calls
refusals [] times long few =
    let fits : leb (times + 0) 10 ≡ true = ground arith in
    rw fits (ap (λ n. ok (refused n)) (omega arith))
refusals (storing address data_ ∷ cs) times long few = elim (Bool-cases (ltb times 10)) [
  | inl more ↦
      rw (store-refused times address data_ long.0, more)
        (refusals cs (times + 1) long.1 (ground arith) ∙ rw (same_count times (length cs)) refl)
  | inr last ↦
      let past : leb (times + suc (length cs)) 10 ≡ false = ground arith in
      rw (store-refused times address data_ long.0, last, past) refl
]
refusals (loading address ∷ cs) times long few = absurd long

-- Of data that is longer than the cache the first ten are refused, one after the other, and the eleventh
-- panics: it is the nil encoding of a heap without entries that is asked for its length.
pub calls-refused :
    (cs : List Call)
    → AreLong cs
    → calls cs fresh ≡ (if leb (length cs) 10 then ok (refused (length cs)) else panic)
calls-refused cs long =
    refusals cs 0 long (omega arith)
    ∙ ap (λ n. if leb n 10 then ok (refused n) else panic) (omega arith)
