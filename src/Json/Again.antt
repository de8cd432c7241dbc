-- ===== src/Json/Again.antt =====
-- jsonUtil.go: what `Marshal` returns when it is called again at the address of an earlier call.
use gocore.Common.{ℕ, ◌+◌, ◌≤◌, ◌≡◌, refl, ◌∙◌, Option, none, some, length}
use gocore.Common.Run.{Returns, Returns-bind}
use gocore.Common.Dicts.{find}
use gocore.Heap.Order.{IsHeap}
use gocore.Json.Cache.{Encoder, Bytes, store, load}
use gocore.Json.Value.{Value}
use gocore.Json.Marshal.{marshal_call, marshal_any, braced}
use gocore.Json.Room.{IsEntered, store-IsEntered, same_address}

marshal_call-found :
    (e : Encoder) (address : ℕ) (value : Option Value) {d : Bytes}
    → find address e.cache ≡ some d
    → Returns (λ r. r.0 ≡ some d) (marshal_call e address value)
unfolding marshal_call load
marshal_call-found e address value h = rw (marshal_call, h) refl

-- The text of the first call is what any later call at the address returns, whatever the value is by then;
-- `IsHeap` and the bounds say that the cache takes the text.
pub marshal_call-again :
    (size : ℕ → ℕ) (e : Encoder) (address n : ℕ) (value : Option Value) {text : Bytes}
    → IsHeap size e.obsolete n
    → size address ≡ length (braced text)
    → find address e.cache ≡ none
    → e.capacity + length (braced text) ≤ 1024
    → e.cache_nums + 1 ≤ 1000
    → marshal_any value ≡ some text
    → Returns
        (λ r.
          (r.0 ≡ some (braced text))
          × ((later : Option Value)
              → Returns (λ r2. r2.0 ≡ some (braced text)) (marshal_call r.1 address later)))
        (marshal_call e address value)
unfolding marshal_call load
marshal_call-again size e address n value {text} heap sized absent room few h =
    rw (marshal_call, absent, h)
      (Returns-bind (IsEntered size address n (braced text) (load e address).1) _
        (store (load e address).1 address (braced text)) _
        (store-IsEntered size (load e address).1 address n (braced text) heap sized absent room few)
        (λ e' s. (
          refl,
          λ later.
              marshal_call-found e' address later
                (s.holds address ∙ rw (same_address address) refl),
        )))
