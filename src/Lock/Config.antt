-- ===== src/Lock/Config.antt =====
-- go-lock.go: the configuration that all locks of a process share.
use gocore.Common.{
  ℕ, Bool, true, false, List, [], ◌∷◌, Option, none, some, not, ◌&&◌, ◌==◌, if◌then◌else◌,
}
use gocore.Common.Int.{ℤ, pos}
use gocore.Common.Run.{Run, ok, panic, ◌>>=◌}

-- Times are nanoseconds. `delegate` is the client, by number.
pub record Config : Type 0 where
  pub cancel_time : ℕ
  pub max_offset_time : ℕ
  pub expires_time : ℕ
  pub reties : ℤ
  pub delegate : Option ℕ
  pub node_id : ℕ

-- A network interface: its flags, its addresses or an error, and its hardware address, 0 for none. An address is
-- whether it is one of a network and not of the loopback.
pub record Interface : Type 0 where
  pub is_up : Bool
  pub is_loopback : Bool
  pub addrs : Option (List Bool)
  pub mac : ℕ

first_mac : ℕ → List Bool → Option ℕ
first_mac mac [] = none
first_mac mac (valid ∷ addrs) =
    let rest = first_mac mac addrs in if valid && not (mac == 0) then some mac else rest

mac_of : Interface → Option ℕ → Option (List Bool) → Option ℕ
mac_of iface rest none = none
mac_of iface rest (some addrs) = elim (first_mac iface.mac addrs) [
  | some mac ↦ some mac
  | none ↦ rest
]

search_ids : List Interface → Option ℕ
search_ids [] = none
search_ids (iface ∷ ifaces) =
    let rest = search_ids ifaces in
    let here = mac_of iface rest iface.addrs in
    if iface.is_up && not iface.is_loopback then here else rest

-- `none` is an error, also that of listing the interfaces.
unfoldable pub get_machine_id : Option (List Interface) → Option ℕ
unfolding first_mac mac_of search_ids
get_machine_id none = none
get_machine_id (some ifaces) = search_ids ifaces

-- What `init` sets, given the id of the machine; without one it panics.
abbrev pub init : Option ℕ → Run Config
init none = panic
init (some node_id) = ok (record {
  cancel_time = 1000000000;
  max_offset_time = 10000000;
  expires_time = 3000000000;
  reties = pos 2;
  delegate = none;
  node_id = node_id;
})

abbrev ConfigOption : Type 0
ConfigOption = Config → Run Config

abbrev pub with_cancel_time : ℕ → ConfigOption
with_cancel_time t c = ok (record c { cancel_time = t })

abbrev pub with_expires_time : ℕ → ConfigOption
with_expires_time t c = ok (record c { expires_time = t })

abbrev pub with_max_offset_time : ℕ → ConfigOption
with_max_offset_time t c = ok (record c { max_offset_time = t })

abbrev pub with_reties : ℤ → ConfigOption
with_reties n c = ok (record c { reties = n })

-- `answers` says whether the client's ping succeeds.
abbrev pub with_storage_client : (ℕ → Bool) → ℕ → ConfigOption
with_storage_client answers client c =
    if answers client then ok (record c { delegate = some client }) else panic

unfoldable pub apply : List ConfigOption → Config → Run Config
apply [] c = ok c
apply (option ∷ options) c = option c >>= apply options

-- `once.Do`: the first call only applies its options.
unfoldable pub assembly_mutex : List ConfigOption → Bool × Config → Run (Bool × Config)
assembly_mutex options (true, c) = ok (true, c)
assembly_mutex options (false, c) = apply options c >>= λ c'. ok (true, c')

-- A lock: its name, and the goroutines that renew it, each of which takes one signal of `delayDone`.
pub record Mutex : Type 0 where
  pub name : ℕ
  pub renewing : ℕ

abbrev made : ℕ → Option ℕ → Run Mutex
made name none = panic
made name (some client) = ok (record { name = name; renewing = 0 })

unfoldable pub new_mutex : Config → ℕ → Run Mutex
new_mutex c name = made name c.delegate
