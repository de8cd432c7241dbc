-- ===== src/Lock/Nodes.antt =====
-- go-lock.go: the machines that use one name, in any order, as a step relation.
use gocore.Common.{ℕ, ◌/◌, ◌≤◌, ◌≡◌, Bool, true, false, none, some, ◌==◌, if◌then◌else◌}
use gocore.Lock.Redis.{Redis, Wire}
use gocore.Lock.Config.{Config}
use gocore.Lock.Calls.{try_lock, delay, release}

-- The server, and the machines whose last TryLock or Lock said yes, until they release or the key expires.
pub record System (r : Redis) : Type 0 where
  pub server : r.Server
  pub held : ℕ → Bool

abbrev pub mark : ℕ → Bool → (ℕ → Bool) → ℕ → Bool
mark n b held j = if n == j then b else held j

module _ (r : Redis) (name : ℕ) where
  abbrev tried : Config → Wire → System r → System r
  tried c w s =
      let a = try_lock r c name w s.server in
      record { server = a.1; held = if a.0 then mark c.node_id true s.held else s.held }

  -- A machine is one with its id. `passes` is a change of the server that leaves the key's holder, such as time
  -- or other keys; when the key expires nobody holds the lock any longer.
  pub data Step : System r → System r → Type 0 where
    tries : (c : Config) (w : Wire) {s : System r} → Step s (tried c w s)
    renews :
        (c : Config) (cached : Bool) (w w' : Wire) {s : System r}
        → 1 ≤ c.expires_time / 1000000
        → Step s (record s { server = (delay r c name cached w w' s.server).2 })
    releases :
        (c : Config) (cached : Bool) (w w' : Wire) {s : System r}
        → Step s (record {
          server = (release r c name cached w w' s.server).1;
          held = mark c.node_id false s.held;
        })
    passes :
        (server : r.Server) {s : System r}
        → r.holder name server ≡ r.holder name s.server
        → Step s (record s { server = server })
    expires :
        (server : r.Server) {s : System r}
        → r.holder name server ≡ none
        → Step s (record { server = server; held = λ n. false })

  pub data Steps : System r → System r → Type 0 where
    done : {s : System r} → Steps s s
    next : {s s' s'' : System r} → Step s s' → Steps s' s'' → Steps s s''

  -- A machine that holds the lock is the key's value.
  abbrev pub IsHolder : System r → Type 0
  IsHolder s = (n : ℕ) → s.held n ≡ true → r.holder name s.server ≡ some n
