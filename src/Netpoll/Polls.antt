-- ===== src/Netpoll/Polls.antt =====
-- netpoll/poll_manager.go: the manager of the pollers. `openPoll` and the load balances are not in the repository.
pub mod Managed
pub mod Keeps
pub mod Picks
use gocore.Common.{
  ℕ, zero, suc, ◌+◌, ◌-◌, ◌/◌, Bool, true, false, List, [], ◌∷◌, ◌++◌, Option, none, some, ltb,
  ◌==◌, if◌then◌else◌, length, get_elem?,
}
use gocore.Common.Int.{ℤ, pos, negsuc}
use gocore.Common.Run.{Run, ok, or_panic, ◌>>=◌}

-- What the manager calls of a load balance: its kind, its construction, `Rebalance` and `Pick`.
pub record Balancing (B : Type 0) : Type 0 where
  pub round_robin : ℕ
  pub load_balance : B → ℕ
  pub new_load_balance : ℕ → List ℕ → B
  pub rebalance : B → List ℕ → B
  pub pick : B → Run (ℕ × B)

-- The pollers are numbered in the order in which `openPoll` gives them. `opened` of them there are, `waiting` are those
-- whose `Wait` was started in a goroutine, and `closed` those whose `Close` was called.
pub record Manager (B : Type 0) : Type 0 where
  pub num_loops : ℕ
  pub balance : Option B
  pub polls : List ℕ
  pub opened : ℕ
  pub waiting : List ℕ
  pub closed : List ℕ

module _ {B : Type 0} where
  -- An error of `Close` is at most logged.
  abbrev pub close_poll : ℕ → Manager B → Manager B
  close_poll p m = record m { closed = p ∷ m.closed }

  unfoldable pub close_polls : List ℕ → Manager B → Manager B
  close_polls [] m = m
  close_polls (p ∷ ps) m = close_polls ps (close_poll p m)

  -- A turn of the loop of `Run`.
  abbrev pub open_poll : Manager B → Manager B
  open_poll m = record m {
    polls = m.polls ++ m.opened ∷ [];
    opened = suc m.opened;
    waiting = m.opened ∷ m.waiting;
  }

  unfoldable pub open_polls : ℕ → Manager B → Manager B
  open_polls zero m = m
  open_polls (suc n) m = open_polls n (open_poll m)

  -- The loop of `SetNumLoops` from `idx` on, for `turns` turns. It writes the entries of the new slice in their order, so
  -- that they are appended here.
  unfoldable pub shrink : ℕ → ℕ → ℕ → List ℕ → Manager B → Run (List ℕ × Manager B)
  shrink num_loops zero idx kept m = ok (kept, m)
  shrink num_loops (suc turns) idx kept m = or_panic (get_elem? m.polls idx) >>= λ p.
      if ltb idx num_loops
      then shrink num_loops turns (suc idx) (kept ++ p ∷ []) m
      else shrink num_loops turns (suc idx) kept (close_poll p m)

-- What the manager is asked for.
pub data Call : Type 0 where
  set_num_loops_to : ℤ → Call
  set_load_balance_to : ℕ → Call
  closes resets runs picks : Call

module _ {B : Type 0} (o : Balancing B) where
  -- `m.balance.Rebalance(m.polls)`, which panics if there is no balance.
  abbrev pub rebalanced : Manager B → Run (Manager B)
  rebalanced m =
      or_panic m.balance >>= λ b. ok (record m { balance = some (o.rebalance b m.polls) })

  unfoldable pub run : Manager B → Run (Manager B)
  unfolding open_polls
  run m = rebalanced (open_polls (m.num_loops - length m.polls) m)

  abbrev pub shrunk : ℕ → List ℕ × Manager B → Run (Manager B)
  shrunk n r = rebalanced (record r.1 { num_loops = n; polls = r.0 })

  abbrev pub set_positive : ℕ → Manager B → Run (Bool × Manager B)
  set_positive n m =
      (if ltb n m.num_loops
        then shrink n m.num_loops 0 [] m >>= shrunk n
        else run (record m { num_loops = n }))
      >>= λ m'. ok (true, m')

  -- Whether there was no error, and the manager.
  unfoldable pub set_num_loops : ℤ → Manager B → Run (Bool × Manager B)
  unfolding shrink run
  set_num_loops (negsuc n) m = ok (false, m)
  set_num_loops (pos n) m = if ltb n 1 then ok (false, m) else set_positive n m

  abbrev pub replaced : ℕ → Manager B → Manager B
  replaced kind m = record m { balance = some (o.new_load_balance kind m.polls) }

  unfoldable pub set_load_balance : ℕ → Manager B → Manager B
  set_load_balance kind m = elim m.balance [
    | none ↦ replaced kind m
    | some b ↦ if o.load_balance b == kind then m else replaced kind m
  ]

  unfoldable pub close : Manager B → Manager B
  unfolding close_polls
  close m = record (close_polls m.polls m) { num_loops = 0; balance = none; polls = [] }

  unfoldable pub reset : Manager B → Run (Manager B)
  unfolding run close_polls
  reset m = run (record (close_polls m.polls m) { polls = [] })

  unfoldable pub pick : Manager B → Run (ℕ × Manager B)
  pick m = or_panic m.balance >>= λ b. o.pick b >>= λ r. ok (r.0, record m { balance = some r.1 })

  -- `init`, with the number of processors.
  unfoldable pub init : ℕ → Run (Manager B)
  unfolding set_load_balance set_num_loops
  init procs =
      let m = set_load_balance o.round_robin (record {
        num_loops = 0;
        balance = none;
        polls = [];
        opened = 0;
        waiting = [];
        closed = [];
      }) in
      set_num_loops (pos (procs / 20 + 1)) m >>= λ r. ok r.1

  unfoldable pub call : Call → Manager B → Run (Manager B)
  unfolding set_num_loops set_load_balance close reset run pick
  call (set_num_loops_to z) m = set_num_loops z m >>= λ r. ok r.1
  call (set_load_balance_to kind) m = ok (set_load_balance kind m)
  call closes m = ok (close m)
  call resets m = reset m
  call runs m = run m
  call picks m = pick m >>= λ r. ok r.1

  unfoldable pub calls : List Call → Manager B → Run (Manager B)
  unfolding call
  calls [] m = ok m
  calls (c ∷ cs) m = call c m >>= calls cs
