-- ===== src/Json/Cache.antt =====
-- jsonUtil.go: `jsonEncoder` with store and load. An address is a number, an encoding its bytes; the two
-- maps go by address, and `obsolete` is the heap of container.go with the lengths as its keys.
use gocore.Common.{
  ℕ, ◌+◌, ◌*◌, ◌/◌, List, [], Bool, true, false, ◌&&◌, not, Option, none, some, ltb, leb, ◌==◌,
  if◌then◌else◌, length,
}
use gocore.Common.Int.{pos, ◌+ℤ◌, ◌-ℤ◌, ltb_ℤ, int64}
use gocore.Common.Run.{Run, ok, panic, ◌>>=◌, or_panic}
use gocore.Common.Dicts.{Dict, find, put, erase}
use gocore.Heap.{Heap, peek_max, insert, delete, empty}

abbrev pub Bytes : Type 0
Bytes = List ℕ

pub record Encoder : Type 0 where
  pub cache : Dict Bytes
  pub obsolete : Heap
  pub cache_access_times : Dict ℕ
  pub capacity : ℕ
  pub cache_invalid_times : ℕ
  pub cache_success_nums : ℕ
  pub cache_nums : ℕ

-- What `init` builds.
abbrev pub fresh : Encoder
fresh = record {
  cache = [];
  obsolete = empty;
  cache_access_times = [];
  capacity = 0;
  cache_invalid_times = 0;
  cache_success_nums = 0;
  cache_nums = 0;
}

abbrev pub max_storage_bytes : ℕ
max_storage_bytes = 1024

-- A missing key of the map reads as 0.
abbrev pub times_of : Option ℕ → ℕ
times_of none = 0
times_of (some n) = n

-- Division of counts: a divisor 0 panics.
abbrev pub divide : ℕ → ℕ → Run ℕ
divide a b = if b == 0 then panic else ok (a / b)

-- `float64(cacheSuccessNums/cacheNums) < 0.3`: the division is one of integers, so the quotient is
-- below 0.3 when it is 0.
abbrev pub low_rate : Encoder → Run Bool
low_rate e = divide e.cache_success_nums e.cache_nums >>= λ q. ok (q == 0)

-- The loops that give up cold data: `i > e.obsolete.length` holds of 0 only for a negative length, whose
-- slot cannot be read.
abbrev pub give_up_loop : Encoder → Run Encoder
give_up_loop e = if ltb_ℤ e.obsolete.length (pos 0) then panic else ok e

unfoldable pub forget : ℕ → Encoder → Encoder
forget address e = record e {
  cache = erase address e.cache;
  cache_access_times = erase address e.cache_access_times;
}

abbrev pub by_rate : Encoder → Bool → Run Encoder
by_rate e low =
    let given_up =
      give_up_loop e >>= λ e'. ok (record e' { cache_nums = 0; cache_success_nums = 0 }) in
    if low then given_up else ok e

-- The branch for the tenth failure in a row.
unfoldable pub drain : Encoder → Run Encoder
drain e = do
  value ← peek_max e.obsolete
  data_ ← or_panic (find value e.cache)
  let drop_value =
      delete e.obsolete e.obsolete.length >>= λ h. ok (record (forget value e) { obsolete = h })
  let others = low_rate e >>= λ low. by_rate e low
  e' ← if ltb 256 (length data_) then drop_value else others
  ok (record e' { cache_invalid_times = 0 })

-- The branch that drops the root of the heap when it is cold.
unfoldable pub replace_root : Encoder → Run Encoder
replace_root e = do
  value ← peek_max e.obsolete
  hot ← divide e.cache_success_nums (length e.cache)
  let dropped = delete e.obsolete (pos 1) >>= λ h. ok (record (forget value e) { obsolete = h })
  if leb (times_of (find value e.cache_access_times)) (hot * 2) then dropped else ok e

-- `int64(e.obsolete.peekMax())+MaxStorageBytes-e.capacity < int64(len(*data))`
abbrev pub is_short : Encoder → ℕ → ℕ → Bool
is_short e top size = ltb_ℤ (int64 top +ℤ pos max_storage_bytes -ℤ pos e.capacity) (pos size)

-- What the strategy for a full cache leads to: the data is refused, or goes on to be stored.
unfoldable pub make_room : Encoder → ℕ → Run (Bool × Encoder)
make_room e size = do
  top ← peek_max e.obsolete
  let refused = ok (false, record e { cache_invalid_times = e.cache_invalid_times + 1 })
  let drained = drain e >>= λ e'. ok (true, e')
  let replaced = replace_root e >>= λ e'. ok (true, e')
  if is_short e top size && ltb e.cache_invalid_times 10
      then refused
      else if leb 10 e.cache_invalid_times
      then drained
      else if not (is_short e top size)
      then replaced
      else ok (true, e)

-- The rearrangement after a thousand loads. The quotient is of the numbers from before `make_room`.
unfoldable pub arrange : Encoder → Encoder → Run Encoder
arrange before e =
    let cleared = record e { cache_nums = 0; cache_success_nums = 0; cache_invalid_times = 0 } in
    let checked =
      low_rate before >>= λ low. if low then (give_up_loop e >>= λ e'. ok cleared) else ok e in
    if ltb 1000 e.cache_nums then checked else ok e

unfoldable pub enter : ℕ → Bytes → Encoder → Run Encoder
enter address data_ e = do
  h ← insert e.obsolete (length data_) address
  ok (record e {
    capacity = e.capacity + length data_;
    obsolete = h;
    cache_access_times = put address 0 e.cache_access_times;
    cache = put address data_ e.cache;
  })

abbrev pub room_for : Encoder → Bytes → Run (Bool × Encoder)
room_for e data_ =
    if ltb max_storage_bytes (e.capacity + length data_)
    then make_room e (length data_)
    else ok (true, e)

unfoldable pub store_new : Encoder → ℕ → Bytes → Run Encoder
store_new e address data_ = do
  r ← room_for e data_
  let stored = arrange e r.1 >>= λ e'. enter address data_ e'
  if r.0 then stored else ok r.1

unfoldable pub store : Encoder → ℕ → Bytes → Run Encoder
store e address data_ = elim (find address e.cache) [
  | some d ↦ ok e
  | none ↦ store_new e address data_
]

-- `load` counts; the access times it changes are those of a local copy.
unfoldable pub load : Encoder → ℕ → Option Bytes × Encoder
load e address =
    let value = find address e.cache in
    (
      value,
      record e {
        cache_nums = e.cache_nums + 1;
        cache_success_nums = elim value [
          | none ↦ e.cache_success_nums
          | some d ↦ e.cache_success_nums + 1
        ];
      },
    )
