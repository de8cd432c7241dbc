-- ===== src/Lock/Owner.antt =====
-- go-lock.go: only the machine that holds the key renews and releases it, wherever its messages end.
use gocore.Common.{
  ℕ, ◌≡◌, ◌≢◌, refl, sym, ◌∙◌, Bool, true, false, Option, none, some, inl, inr, ◌==◌, ==_iff,
  Bool-cases, Option-cases, if◌then◌else◌,
}
use gocore.Common.Int.{ℤ}
use gocore.Lock.Redis.{Redis, Script, release_script, Wire, arrives, lost, unanswered, send}
use gocore.Lock.Config.{Config}
use gocore.Lock.Calls.{try_lock, is_owner, run_release, eval, eval_sha, release}

-- What a command keeps is kept wherever the message ends.
send_keeps :
    {S A : Type 0} (P : S → Type 0) (w : Wire) (f : S → Option A × S) (s : S)
    → P s
    → P (f s).1
    → P (send w f s).1
send_keeps P arrives f s h k = k
send_keeps P lost f s h k = h
send_keeps P unanswered f s h k = k

send_arrived :
    {S A : Type 0} (P : S → Type 0) (w : Wire) (f : S → Option A × S) (s : S)
    → w ≢ lost
    → P (f s).1
    → P (send w f s).1
send_arrived P arrives f s h k = k
send_arrived P lost f s h k = absurd (h refl)
send_arrived P unanswered f s h k = k

pub false_true {ℓ} : {A : Type ℓ} → false ≡ true → A
false_true e = cc

module _ (r : Redis) (name : ℕ) (c : Config) where
  abbrev pub HolderIs : Option ℕ → r.Server → Type 0
  HolderIs o s = r.holder name s ≡ o

  -- A run of a script that keeps the holder, as EVAL and as EVALSHA.
  pub eval-keeps :
      (script : Script) (run : r.Server → Option ℤ × r.Server) (o : Option ℕ) (w : Wire)
      (s : r.Server)
      → ((s : r.Server) → HolderIs o s → HolderIs o (run s).1)
      → HolderIs o s
      → HolderIs o (eval r script run w s).1
  unfolding eval
  eval-keeps script run o w s k h =
      send_keeps (HolderIs o) w (λ s. run (r.learn script s)) s h
        (k (r.learn script s) (r.learn_holder name script s ∙ h))

  pub eval_sha-keeps :
      (script : Script) (run : r.Server → Option ℤ × r.Server) (o : Option ℕ) (w : Wire)
      (s : r.Server)
      → ((s : r.Server) → HolderIs o s → HolderIs o (run s).1)
      → HolderIs o s
      → HolderIs o (eval_sha r script run w s).1
  unfolding eval_sha
  eval_sha-keeps script run o w s k h =
      send_keeps (HolderIs o) w (λ s. if r.knows script s then run s else (none, s)) s h
        (known (r.knows script s))
    where
      known :
          (b : Bool) → HolderIs o (if◌then◌else◌ {A = Option ℤ × r.Server} b (run s) (none, s)).1
      known true = k s h
      known false = h

  -- The owner is not one of `o`.
  abbrev pub IsForeign : Option ℕ → Type 0
  IsForeign none = Unit
  IsForeign (some v) = v ≢ c.node_id

  pub not_owner :
      (o : Option ℕ) (s : r.Server)
      → IsForeign o
      → HolderIs o s
      → is_owner r name c.node_id s ≡ false
  not_owner none s f h = rw (is_owner, h) refl
  not_owner (some v) s f h = rw (is_owner, h) (different v f)
    where
      different : (v : ℕ) → v ≢ c.node_id → (v == c.node_id) ≡ false
      different v f = elim (Bool-cases (v == c.node_id)) [
        | inl e ↦ absurd (f ((==_iff v c.node_id).0 e))
        | inr e ↦ e
      ]

  run_release-keeps :
      (o : Option ℕ) (s : r.Server)
      → IsForeign o
      → HolderIs o s
      → HolderIs o (run_release r name c.node_id s).1
  unfolding run_release
  run_release-keeps o s f h = rw (not_owner o s f h) h

  -- A release by a machine that does not hold the key leaves the key as it is.
  pub release-keeps :
      (o : Option ℕ) (cached : Bool) (w w' : Wire) (s : r.Server)
      → IsForeign o
      → r.holder name s ≡ o
      → r.holder name (release r c name cached w w' s).1 ≡ o
  unfolding release
  release-keeps o true w w' s f h =
      eval_sha-keeps release_script (run_release r name c.node_id) o w' s
        (λ s. run_release-keeps o s f) h
  release-keeps o false w w' s f h =
      eval_sha-keeps release_script (run_release r name c.node_id) o w' _
        (λ s. run_release-keeps o s f)
        (eval-keeps release_script (run_release r name c.node_id) o w s
          (λ s. run_release-keeps o s f) h)

  -- A machine that takes the key found it free and holds it then; a key that is held stays with its holder.
  pub try_lock-takes :
      (w : Wire) (s : r.Server)
      → (try_lock r c name w s).0 ≡ true
      → (r.holder name s ≡ none) × (r.holder name (try_lock r c name w s).1 ≡ some c.node_id)
  unfolding try_lock
  try_lock-takes arrives s h = elim (Option-cases (r.holder name s)) [
    | inl free ↦ (free, (r.set_nx_free name c.node_id c.expires_time s free).1)
    | inr held ↦ false_true (sym (r.set_nx_held name c.node_id c.expires_time s held.1).0 ∙ h)
  ]
  try_lock-takes lost s h = cc
  try_lock-takes unanswered s h = cc

  pub try_lock-keeps :
      (w : Wire) (s : r.Server) {v : ℕ}
      → r.holder name s ≡ some v
      → r.holder name (try_lock r c name w s).1 ≡ some v
  unfolding try_lock
  try_lock-keeps arrives s h = (r.set_nx_held name c.node_id c.expires_time s h).1
  try_lock-keeps lost s h = h
  try_lock-keeps unanswered s h = (r.set_nx_held name c.node_id c.expires_time s h).1

  run_release-frees :
      (s : r.Server)
      → r.holder name s ≡ some c.node_id
      → r.holder name (run_release r name c.node_id s).1 ≡ none
  unfolding run_release
  run_release-frees s h =
      rw (is_owner, h) (rw ((==_iff c.node_id c.node_id).1 refl) (r.del_holder name s))

  -- A message of the release reaches the server: the script itself, or its hash when the server knows it.
  abbrev pub IsSent : Bool → Wire → Wire → r.Server → Type 0
  IsSent true w w' s = (w' ≢ lost) × (r.knows release_script s ≡ true)
  IsSent false w w' s = w ≢ lost

  -- The release by the holder frees the key as soon as one of its messages reaches the server: the script
  -- itself, or its hash where the server knows it.
  pub release-frees :
      (cached : Bool) (w w' : Wire) (s : r.Server)
      → r.holder name s ≡ some c.node_id
      → IsSent cached w w' s
      → r.holder name (release r c name cached w w' s).1 ≡ none
  unfolding release eval eval_sha
  release-frees true w w' s h sent =
      send_arrived (HolderIs none) w'
        (λ s. if r.knows release_script s then run_release r name c.node_id s else (none, s)) s
        sent.0 (rw sent.1 (run_release-frees s h))
  release-frees false w w' s h sent =
      eval_sha-keeps release_script (run_release r name c.node_id) none w' _
        (λ s. run_release-keeps none s tt)
        (send_arrived (HolderIs none) w
          (λ s. run_release r name c.node_id (r.learn release_script s)) s sent
          (run_release-frees (r.learn release_script s) (r.learn_holder name release_script s ∙ h)))
