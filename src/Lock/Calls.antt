-- ===== src/Lock/Calls.antt =====
-- go-lock.go: TryLock, the renewal and the release of the key. Every command takes the fate of its message.
use gocore.Common.{ℕ, zero, suc, ◌/◌, Bool, true, false, Option, none, some, ◌==◌, if◌then◌else◌}
use gocore.Common.Int.{ℤ, pos, negsuc, ltb_ℤ}
use gocore.Lock.Redis.{Redis, Script, delay_script, release_script, Wire, send}
use gocore.Lock.Config.{Config, Mutex}

module _ (r : Redis) where
  -- `acquire`: SET NX with the id of the machine, and an error when no answer comes.
  unfoldable pub acquire : Config → ℕ → Wire → r.Server → Option Bool × r.Server
  acquire c name w s =
      send w (λ s. let a = r.set_nx name c.node_id c.expires_time s in (some a.0, a.1)) s

  abbrev took : Option Bool → Bool
  took none = false
  took (some b) = b

  unfoldable pub try_lock : Config → ℕ → Wire → r.Server → Bool × r.Server
  unfolding acquire
  try_lock c name w s = let a = acquire c name w s in (took a.0, a.1)

  -- `redis.call('GET', KEYS[1]) == ARGV[1]`
  abbrev pub is_owner : ℕ → ℕ → r.Server → Bool
  is_owner name node s = elim (r.holder name s) [ none ↦ false | some v ↦ v == node ]

  -- The script that renews; -2 is minus one more than 1.
  unfoldable pub run_delay : ℕ → ℕ → ℕ → r.Server → Option ℤ × r.Server
  run_delay name node ms s =
      let renewed = r.pexpire name ms s in
      if is_owner name node s then (some renewed.0, renewed.1) else (some (negsuc 1), s)

  -- The script that releases; without an owner its answer is nil, for which 0 stands.
  unfoldable pub run_release : ℕ → ℕ → r.Server → Option ℤ × r.Server
  run_release name node s =
      let deleted = r.del name s in
      if is_owner name node s then (some (pos deleted.0), deleted.1) else (some (pos 0), s)

  -- EVAL sends the script itself, EVALSHA its hash, which the server may not know.
  unfoldable pub eval :
      Script → (r.Server → Option ℤ × r.Server) → Wire → r.Server → Option ℤ × r.Server
  eval script run w s = send w (λ s. run (r.learn script s)) s

  unfoldable pub eval_sha :
      Script → (r.Server → Option ℤ × r.Server) → Wire → r.Server → Option ℤ × r.Server
  eval_sha script run w s = send w (λ s. if r.knows script s then run s else (none, s)) s

  -- An error of the client or a negative status is an error of `delay`.
  abbrev pub is_good : Option ℤ → Bool
  is_good none = false
  is_good (some status) = if ltb_ℤ status (pos 0) then false else true

  -- `cached` is whether `cacheHash` has the script's hash. The result is whether there was no error, then
  -- `cached` and the server.
  unfoldable pub delay : Config → ℕ → Bool → Wire → Wire → r.Server → Bool × Bool × r.Server
  unfolding eval eval_sha run_delay
  delay c name cached w w' s =
      let run = run_delay name c.node_id (c.expires_time / 1000000) in
      let first = if cached then (some (pos 0), s) else eval delay_script run w s in
      let second = eval_sha delay_script run w' first.1 in
      if is_good first.0 then (is_good second.0, true, second.1) else (false, cached, first.1)

  -- Both answers are dropped, and the hash is kept whatever became of the first call.
  unfoldable pub release : Config → ℕ → Bool → Wire → Wire → r.Server → Bool × r.Server
  unfolding eval eval_sha run_release
  release c name cached w w' s =
      let run = run_release name c.node_id in
      let first = if cached then (some (pos 0), s) else eval release_script run w s in
      (true, (eval_sha release_script run w' first.1).1)

  -- A send on `delayDone` needs a goroutine that receives: without one it never returns, which is `none`. The
  -- channel has no buffer, so that its length, which is tested first, is always 0.
  unfoldable pub un_lock :
      Config → Mutex → Bool → Wire → Wire → r.Server → Option (Mutex × Bool × r.Server)
  unfolding release
  un_lock c m cached w w' s = elim m.renewing [
    | zero ↦ none
    | suc n ↦
        let freed = release c m.name cached w w' s in
        some (record m { renewing = n }, freed.0, freed.1)
  ]
