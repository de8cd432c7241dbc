-- ===== src/Json/Marshal.antt =====
-- jsonUtil.go: `Marshal`. The address is the one that the call goes by: the pointer's own when the value is an
-- `unsafe.Pointer`, else that of the local copy. A nil interface, for which `reflect` panics, is `none`.
use gocore.Common.{◌∷◌, [], ◌++◌, ℕ, Option, none, some}
use gocore.Common.Run.{Run, ok, ◌>>=◌}
use gocore.Json.Cache.{Bytes, Encoder, store, load}
use gocore.Json.Value.{Value}
use gocore.Json.Encoding.{marshal}

abbrev pub marshal_any : Option Value → Option Bytes
marshal_any none = none
marshal_any (some v) = marshal v

abbrev pub braced : Bytes → Bytes
braced text = (123 ∷ text) ++ 125 ∷ []

abbrev encoded : Encoder → ℕ → Option Bytes → Run (Option Bytes × Encoder)
encoded e address none = ok (none, e)
encoded e address (some text) = store e address (braced text) >>= λ e'. ok (some (braced text), e')

unfoldable pub marshal_call : Encoder → ℕ → Option Value → Run (Option Bytes × Encoder)
unfolding load
marshal_call e address value =
    let l = load e address in
    elim l.0 [ some data_ ↦ ok (some data_, l.1) | none ↦ encoded l.1 address (marshal_any value) ]
