-- ===== src/Json/Tests.antt =====
-- A few calls of the cache and values of the encoder, and the theorems at them.
use gocore.Common.{
  ℕ, ◌<◌, zero, suc, ◌≡◌, refl, List, [], ◌∷◌, true, some, arith, length, replicate,
}
use gocore.Common.Int.{pos, ◌+ℤ◌, negsuc}
use gocore.Common.Run.{ok, panic, out_of_fuel, Returns}
use gocore.Common.Dicts.{find, put}
use gocore.Heap.{insert, grow, up, down, swap}
use gocore.Json.Cache.{Encoder, Bytes, fresh, store, store_new, load, arrange, enter}
use gocore.Json.History.{Call, storing, loading, calls, WasStored, load-WasStored}
use gocore.Json.Room.{first_stored, stored_bytes, loads_of, calls-first_stored}
use gocore.Json.Refusals.{AreLong}
use gocore.Json.Value.{
  Items, Fields, int, uintptr, struct, no_items, item, no_fields, field, is_zero,
}
use gocore.Json.Encoding.{
  marshal, marshal_fields, encode, field_text, format_int, decimal_loop, combine_to_json,
}
use gocore.Json.Errors.{fails, is_refused, marshal-is_refused}
use gocore.Json.Commas.{closed, field_texts, ends_zero, marshal_fields-separated}

-- Two stores under the address 5, and a load between them.
abbrev two_stores : List Call
two_stores = storing 5 (1 ∷ 2 ∷ []) ∷ loading 5 ∷ storing 5 (3 ∷ []) ∷ []

abbrev after : Encoder
after = elim (calls two_stores fresh) [ ok e ↦ e | panic ↦ fresh | out_of_fuel ↦ fresh ]

two_stores_run : calls two_stores fresh ≡ ok after
unfolding calls store store_new enter arrange load find put insert grow up swap down ◌+ℤ◌
two_stores_run = refl

found_5 : (load after 5).0 ≡ some (1 ∷ 2 ∷ [])
unfolding calls store store_new enter arrange load find put insert grow up swap down ◌+ℤ◌
found_5 = refl

load-WasStored_example : WasStored two_stores (5, 1 ∷ 2 ∷ [])
load-WasStored_example = load-WasStored two_stores 5 two_stores_run found_5

calls-first_stored_example :
    Returns (λ e. (a : ℕ) → (load e a).0 ≡ first_stored two_stores a) (calls two_stores fresh)
unfolding stored_bytes loads_of
calls-first_stored_example = calls-first_stored two_stores (omega arith) (omega arith)

-- A text longer than the cache, stored eleven times.
abbrev long_text : Bytes
long_text = replicate 1025 120

replicate-AreLong :
    (n address : ℕ) (data_ : Bytes)
    → 1024 < length data_
    → AreLong (replicate n (storing address data_))
replicate-AreLong zero address data_ h = tt
replicate-AreLong (suc n) address data_ h = (h, replicate-AreLong n address data_ h)

abbrev long_stores : List Call
long_stores = replicate 11 (storing 7 long_text)

long_stores-AreLong : AreLong long_stores
long_stores-AreLong = replicate-AreLong 11 7 long_text (omega arith)

-- { 7, 0 } as a struct with two fields, and a slice of two numbers.
abbrev seven_zero : Fields
seven_zero = field (65 ∷ []) (int (pos 7)) (field (66 ∷ []) (int (pos 0)) no_fields)

abbrev two_numbers : Items
two_numbers = item (int (negsuc 11)) (item (int (pos 40)) no_items)

marshal-is_refused_example : fails (marshal (struct [] (field [] (uintptr 1) seven_zero))) ≡ true
unfolding is_refused
marshal-is_refused_example = marshal-is_refused (struct [] (field [] (uintptr 1) seven_zero))

-- `"A": 7`, the end of the line, and a comma with nothing behind it.
marshal_fields-separated_example :
    marshal_fields seven_zero ≡ some (34 ∷ 65 ∷ 34 ∷ 58 ∷ 32 ∷ 55 ∷ 10 ∷ 44 ∷ [])
unfolding field_texts marshal encode is_zero format_int decimal_loop closed ends_zero field_text
    combine_to_json
marshal_fields-separated_example = marshal_fields-separated seven_zero
