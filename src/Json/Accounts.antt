-- ===== src/Json/Accounts.antt =====
-- jsonUtil.go: what the cache holds, and its account of the bytes, over any calls of store and load.
use gocore.Common.{
  ◌*◌, ℕ, ◌+◌, ◌≤◌, ◌≡◌, refl, [], ◌∷◌, not, ◌&&◌, none, some, arith, ltb, leb, if◌then◌else◌,
  length, All,
}
use gocore.Common.Int.{pos, ltb_ℤ}
use gocore.Common.Run.{
  ok, or_panic, ◌>>=◌, Ensures, Ensures-ok, Ensures-panic, Ensures-bind, Ensures-any, Ensures-if,
}
use gocore.Common.Dicts.{Dict, find, put, erase, All-put, All-erase}
use gocore.Heap.{peek_max, insert, delete}
use gocore.Json.Cache.{
  Encoder, Bytes, forget, drain, replace_root, make_room, arrange, enter, store_new, store,
  low_rate, give_up_loop, times_of, by_rate, is_short, room_for, divide, max_storage_bytes,
}

-- The bytes of all encodings in the cache.
unfoldable pub total : Dict Bytes → ℕ
total [] = 0
total ((a, data_) ∷ d) = length data_ + total d

total-put : (k : ℕ) (v : Bytes) (d : Dict Bytes) → total (put k v d) ≤ total d + length v
unfolding total put
total-put k v [] = omega arith
total-put k v ((a, w) ∷ d) = ground (arith, total-put k v d)

total-erase : (k : ℕ) (d : Dict Bytes) → total (erase k d) ≤ total d
unfolding total erase
total-erase k [] = omega arith
total-erase k ((a, w) ∷ d) = ground (arith, total-erase k d)

module _ (P : ℕ × Bytes → Type 0) where
  -- A step that may take entries out of the cache, and leaves the account.
  abbrev Keeps : Encoder → Encoder → Type 0
  Keeps e e' =
      (e'.capacity ≡ e.capacity)
      × (total e'.cache ≤ total e.cache)
      × (All P e.cache → All P e'.cache)

  forget-Keeps : (k : ℕ) (e : Encoder) → Keeps e (forget k e)
  unfolding forget
  forget-Keeps k e = (refl, total-erase k e.cache, All-erase P k e.cache)

  give_up_loop-Keeps : (e e0 : Encoder) → Keeps e0 e → Ensures (Keeps e0) (give_up_loop e)
  give_up_loop-Keeps e e0 k =
      Ensures-if (ltb_ℤ e.obsolete.length (pos 0)) Ensures-panic (Ensures-ok k)

  same-Keeps : (e : Encoder) → Keeps e e
  same-Keeps e = (refl, omega arith, λ h. h)

  drain-Keeps : (e : Encoder) → Ensures (Keeps e) (drain e)
  unfolding drain
  drain-Keeps e = Ensures-any (peek_max e.obsolete) λ value.
      Ensures-any (or_panic (find value e.cache)) λ data_.
        Ensures-bind (Keeps e)
          (if ltb 256 (length data_)
            then (delete e.obsolete e.obsolete.length >>= λ h.
                ok (record (forget value e) { obsolete = h }))
            else (low_rate e >>= λ low. by_rate e low))
          (Ensures-if (ltb 256 (length data_))
            (Ensures-any (delete e.obsolete e.obsolete.length)
              λ h. Ensures-ok (forget-Keeps value e))
            (Ensures-any (low_rate e) λ low.
              Ensures-if low
                (Ensures-bind (Keeps e) (give_up_loop e) (give_up_loop-Keeps e e (same-Keeps e))
                  (λ e' k. Ensures-ok k))
                (Ensures-ok (same-Keeps e))))
          (λ e' k. Ensures-ok k)

  replace_root-Keeps : (e : Encoder) → Ensures (Keeps e) (replace_root e)
  unfolding replace_root
  replace_root-Keeps e = Ensures-any (peek_max e.obsolete) λ value.
      Ensures-any (divide e.cache_success_nums (length e.cache)) λ hot.
        Ensures-if (leb (times_of (find value e.cache_access_times)) (hot * 2))
          (Ensures-any (delete e.obsolete (pos 1)) λ h. Ensures-ok (forget-Keeps value e))
          (Ensures-ok (same-Keeps e))

  make_room-Keeps : (e : Encoder) (size : ℕ) → Ensures (λ r. Keeps e r.1) (make_room e size)
  unfolding make_room
  make_room-Keeps e size = Ensures-any (peek_max e.obsolete) λ top.
      Ensures-if (is_short e top size && ltb e.cache_invalid_times 10) (Ensures-ok (same-Keeps e)) (
        Ensures-if (leb 10 e.cache_invalid_times)
          (Ensures-bind (Keeps e) (drain e) (drain-Keeps e) (λ e' k. Ensures-ok k))
          (Ensures-if (not (is_short e top size))
            (Ensures-bind (Keeps e) (replace_root e) (replace_root-Keeps e) (λ e' k. Ensures-ok k))
            (Ensures-ok (same-Keeps e))))

  arrange-Keeps : (before e e0 : Encoder) → Keeps e0 e → Ensures (Keeps e0) (arrange before e)
  unfolding arrange
  arrange-Keeps before e e0 k =
      Ensures-if (ltb 1000 e.cache_nums)
        (Ensures-any (low_rate before)
          λ low. Ensures-if low (Ensures-any (give_up_loop e) λ e'. Ensures-ok k) (Ensures-ok k))
        (Ensures-ok k)

  -- What a call of store for `data_` under `address` does to the cache and to the account.
  pub record IsStored (address : ℕ) (data_ : Bytes) (e e' : Encoder) : Type 0 where
    pub grows : e.capacity ≤ e'.capacity
    pub accounted : total e.cache ≤ e.capacity → total e'.cache ≤ e'.capacity
    pub within : All P e.cache → P (address, data_) → All P e'.cache

  kept-IsStored :
      (address : ℕ) (data_ : Bytes) (e e' : Encoder) → Keeps e e' → IsStored address data_ e e'
  kept-IsStored address data_ e e' k = record {
    grows = omega (arith, k.0);
    accounted = λ h. omega (arith, k.0, k.1);
    within = λ h p. k.2 h;
  }

  enter-IsStored :
      (address : ℕ) (data_ : Bytes) (e e0 : Encoder)
      → Keeps e0 e
      → Ensures (IsStored address data_ e0) (enter address data_ e)
  unfolding enter
  enter-IsStored address data_ e e0 k = Ensures-any (insert e.obsolete (length data_) address) λ h.
      Ensures-ok (record {
        grows = omega (arith, k.0);
        accounted = λ h. omega (arith, k.0, k.1, total-put address data_ e.cache);
        within = λ h p. All-put P address data_ e.cache (k.2 h) p;
      })

  pub store-IsStored :
      (e : Encoder) (address : ℕ) (data_ : Bytes)
      → Ensures (IsStored address data_ e) (store e address data_)
  unfolding store store_new
  store-IsStored e address data_ =
      elim (find address e.cache)
        as (λ o.
          Ensures (IsStored address data_ e)
            (elim o [ some d ↦ ok e | none ↦ store_new e address data_ ])) [
              | some d ↦ Ensures-ok (kept-IsStored address data_ e e (same-Keeps e))
              | none ↦
                  Ensures-bind (λ r. Keeps e r.1) (room_for e data_)
                    (Ensures-if (ltb max_storage_bytes (e.capacity + length data_))
                      (make_room-Keeps e (length data_)) (Ensures-ok (same-Keeps e)))
                    (λ r k.
                      Ensures-if r.0
                        (Ensures-bind (Keeps e) (arrange e r.1) (arrange-Keeps e r.1 e k)
                          (λ e' k'. enter-IsStored address data_ e' e k'))
                        (Ensures-ok (kept-IsStored address data_ e r.1 k)))
            ]
