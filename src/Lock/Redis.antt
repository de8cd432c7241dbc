-- ===== src/Lock/Redis.antt =====
-- go-lock.go: what the lock relies on of a redis server and of the client's library.
use gocore.Common.{ℕ, ◌≤◌, ◌≡◌, Bool, true, false, Option, none, some}
use gocore.Common.Int.{ℤ, pos}

-- The two scripts, which the server keeps by their hashes.
pub data Script : Type 0 where
  delay_script release_script : Script

-- The commands that the lock sends, with the documented effect of each on the keys. A key and a value are
-- numbers, `holder` is GET, and `learn` is what EVAL does to the server besides running the script.
pub record Redis : Type 1 where
  pub Server : Type 0
  pub holder : ℕ → Server → Option ℕ
  pub set_nx : ℕ → ℕ → ℕ → Server → Bool × Server
  pub pexpire : ℕ → ℕ → Server → ℤ × Server
  pub del : ℕ → Server → ℕ × Server
  pub knows : Script → Server → Bool
  pub learn : Script → Server → Server
  pub set_nx_free :
      (k v t : ℕ) (s : Server)
      → holder k s ≡ none
      → ((set_nx k v t s).0 ≡ true) × (holder k (set_nx k v t s).1 ≡ some v)
  pub set_nx_held :
      (k v t : ℕ) (s : Server) {w : ℕ}
      → holder k s ≡ some w
      → ((set_nx k v t s).0 ≡ false) × (holder k (set_nx k v t s).1 ≡ some w)
  pub pexpire_holder :
      (k t : ℕ) (s : Server) {w : ℕ}
      → 1 ≤ t
      → holder k s ≡ some w
      → ((pexpire k t s).0 ≡ pos 1) × (holder k (pexpire k t s).1 ≡ some w)
  pub del_holder : (k : ℕ) (s : Server) → holder k (del k s).1 ≡ none
  pub learn_holder : (k : ℕ) (c : Script) (s : Server) → holder k (learn c s) ≡ holder k s

-- What becomes of a command: it arrives and its answer comes back, it is lost, or the answer is.
pub data Wire : Type 0 where
  arrives lost unanswered : Wire

-- A command with its answer; no answer is an error of the client.
abbrev pub send : {S A : Type 0} → Wire → (S → Option A × S) → S → Option A × S
send arrives f s = f s
send lost f s = (none, s)
send unanswered f s = (none, (f s).1)
