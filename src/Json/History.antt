-- ===== src/Json/History.antt =====
-- jsonUtil.go: any calls of store and load, one after the other, from the encoder that `init` builds.
use mathlib.Core.Path.{subst}
use gocore.Common.{
  ℕ, ◌≤◌, ◌≡◌, refl, ◌⊎◌, inl, inr, List, [], ◌∷◌, some, arith, ◌==◌, All, Bool-cases, ==_iff, ap,
  from_some,
}
use gocore.Common.Run.{
  Run, ok, ◌>>=◌, Ensures, Ensures-ok, Ensures-map, Ensures-bind, Ensures-of_eq,
}
use gocore.Common.Dicts.{Dict, find}
use gocore.Json.Cache.{Encoder, Bytes, fresh, store, load}
use gocore.Json.Accounts.{total, IsStored, store-IsStored}

pub data Call : Type 0 where
  storing : ℕ → Bytes → Call
  loading : ℕ → Call

unfoldable pub calls : List Call → Encoder → Run Encoder
calls [] e = ok e
calls (storing address data_ ∷ cs) e = store e address data_ >>= λ e'. calls cs e'
calls (loading address ∷ cs) e = calls cs (load e address).1

-- A call among `cs` stored `p`.
abbrev pub WasStored : List Call → ℕ × Bytes → Type 0
WasStored [] p = ⊥
WasStored (storing address data_ ∷ cs) p = (p ≡ (address, data_)) ⊎ WasStored cs p
WasStored (loading address ∷ cs) p = WasStored cs p

find-All :
    (P : ℕ × Bytes → Type 0) (k : ℕ) (d : Dict Bytes) {v : Bytes}
    → All P d
    → find k d ≡ some v
    → P (k, v)
unfolding find
find-All P k [] h e = cc
find-All P k ((a, w) ∷ d) {v} h e = elim (Bool-cases (a == k)) [
  | inl same ↦
      subst (λ a. P (a, v)) ((==_iff a k).0 same)
        (subst (λ w. P (a, w)) (ap (from_some w) (rw same at e)) h.0)
  | inr other ↦ find-All P k d h.1 (rw other at e)
]

module _ (P : ℕ × Bytes → Type 0) where
  -- Every call of store is for data that satisfies `P`.
  abbrev AllStored : List Call → Type 0
  AllStored [] = Unit
  AllStored (storing address data_ ∷ cs) = P (address, data_) × AllStored cs
  AllStored (loading address ∷ cs) = AllStored cs

  record IsKept (e e' : Encoder) : Type 0 where
    pub accounted : total e.cache ≤ e.capacity → total e'.cache ≤ e'.capacity
    pub within : All P e.cache → All P e'.cache

  calls-IsKept : (cs : List Call) (e : Encoder) → AllStored cs → Ensures (IsKept e) (calls cs e)
  unfolding calls load
  calls-IsKept [] e h = Ensures-ok (record { accounted = λ a. a; within = λ a. a })
  calls-IsKept (storing address data_ ∷ cs) e h =
      Ensures-bind (IsStored P address data_ e) (store e address data_)
        (store-IsStored P e address data_)
        (λ e' s. Ensures-map (calls cs e') (calls-IsKept cs e' h.1) (λ e2 k. record {
          accounted = λ a. k.accounted (s.accounted a);
          within = λ a. k.within (s.within a h.0);
        }))
  calls-IsKept (loading address ∷ cs) e h =
      Ensures-map (calls cs _) (calls-IsKept cs _ h)
        (λ e2 k. record { accounted = k.accounted; within = k.within })

AllStored-mono :
    (P Q : ℕ × Bytes → Type 0) (cs : List Call)
    → ((p : ℕ × Bytes) → P p → Q p)
    → AllStored P cs
    → AllStored Q cs
AllStored-mono P Q [] f h = tt
AllStored-mono P Q (storing address data_ ∷ cs) f h =
    (f (address, data_) h.0, AllStored-mono P Q cs f h.1)
AllStored-mono P Q (loading address ∷ cs) f h = AllStored-mono P Q cs f h

AllStored-WasStored : (cs : List Call) → AllStored (WasStored cs) cs
AllStored-WasStored [] = tt
AllStored-WasStored (storing address data_ ∷ cs) = (
  inl refl,
  AllStored-mono (WasStored cs) (WasStored (storing address data_ ∷ cs)) cs (λ p h. inr h)
      (AllStored-WasStored cs),
)
AllStored-WasStored (loading address ∷ cs) = AllStored-WasStored cs

-- After any calls, a load that finds data finds what a call of store has stored under that address.
pub load-WasStored :
    (cs : List Call) (address : ℕ) {e : Encoder} {data_ : Bytes}
    → calls cs fresh ≡ ok e
    → (load e address).0 ≡ some data_
    → WasStored cs (address, data_)
unfolding load
load-WasStored cs address {e} h found =
    let kept = Ensures-of_eq (calls-IsKept (WasStored cs) cs fresh (AllStored-WasStored cs)) h in
    find-All (WasStored cs) address e.cache (kept.within tt) found

-- After any calls, the capacity in use counts at least the bytes of the encodings in the cache.
pub calls-total :
    (cs : List Call) {e : Encoder} → calls cs fresh ≡ ok e → total e.cache ≤ e.capacity
unfolding total
calls-total cs h =
    let kept = Ensures-of_eq (calls-IsKept (WasStored cs) cs fresh (AllStored-WasStored cs)) h in
    kept.accounted (omega arith)
