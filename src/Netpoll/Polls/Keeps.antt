-- ===== src/Netpoll/Polls/Keeps.antt =====
-- netpoll/poll_manager.go: what each call of the manager keeps, over the laws of a load balance.
use gocore.Common.{
  ℕ, ◌-◌, ◌<◌, ◌≤◌, ◌≡◌, refl, sym, ap, ◌∙◌, ◌⊎◌, inl, inr, Bool, true, List, [], Option, none,
  some, ltb, ◌==◌, if◌then◌else◌, length, arith, from_some, ltb→lt, Bool-cases,
}
use gocore.Common.Run.{
  Run, ok, panic, out_of_fuel, or_panic, ◌>>=◌, Returns, Returns-inv, Ensures, Ensures-ok,
  Ensures-panic,
}
use gocore.Netpoll.Polls.{
  Manager, Balancing, open_polls, shrink, rebalanced, run, shrunk, set_load_balance, reset, close,
  replaced, set_positive,
}
use gocore.Netpoll.Polls.Managed.{
  closing, close_polls_lem, once, IsOwned, IsShrunk, count, close_polls-IsOwned,
  open_polls-IsOpened, shrink-IsShrunk,
}

-- A load balance is over the pollers that it was given last, and picks one of them, if there are any.
pub record Laws {B : Type 0} (o : Balancing B) : Type 0 where
  pub covers : B → List ℕ
  pub covers-new : (kind : ℕ) (ps : List ℕ) → covers (o.new_load_balance kind ps) ≡ ps
  pub covers-rebalance : (b : B) (ps : List ℕ) → covers (o.rebalance b ps) ≡ ps
  pub covers-pick : (b : B) → Ensures (λ r. covers r.1 ≡ covers b) (o.pick b)
  pub picks_one :
      (b : B) → 0 < length (covers b) → Returns (λ r. 0 < count r.0 (covers b)) (o.pick b)

module _ {B : Type 0} {o : Balancing B} (laws : Laws o) where
  -- There are as many pollers as loops, and the load balance is over them.
  pub record IsManaged (m : Manager B) : Type 0 where
    pub is_owned : IsOwned m
    pub size : length m.polls ≡ m.num_loops
    pub covered : (b : B) → m.balance ≡ some b → laws.covers b ≡ m.polls

  pub record IsReady (m : Manager B) : Type 0 where
    pub is_managed : IsManaged m
    pub balanced : (b : B) × (m.balance ≡ some b)
    pub running : 0 < m.num_loops

  -- A call fails only for want of a balance, and then by a panic.
  pub data Goes (n : ℕ) : Option B → Run (Manager B) → Type 0 where
    stops : Goes n none panic
    goes :
        {b : B} {m : Manager B}
        → IsManaged m
        → (c : B) → m.balance ≡ some c
        → m.num_loops ≡ n
        → Goes n (some b) (ok m)

  some_inj : {b c : B} → some b ≡ some c → b ≡ c
  some_inj {b} h = ap (from_some b) h

  rebalanced-Goes :
      (m : Manager B)
      → IsOwned m
      → length m.polls ≡ m.num_loops
      → Goes m.num_loops m.balance (rebalanced o m)
  rebalanced-Goes m h e = balanced m.balance
    where
      balanced :
          (b : Option B)
          → Goes m.num_loops b
              (or_panic b >>= λ c. ok (record m { balance = some (o.rebalance c m.polls) }))
      balanced none = stops
      balanced (some b) =
          goes
            (record {
              is_owned = record { owned = h.owned; waits = h.waits };
              size = e;
              covered = λ c f. rw (← some_inj f) (laws.covers-rebalance b m.polls);
            })
            (o.rebalance b m.polls) refl refl

  Goes-same :
      {n n' : ℕ} {b b' : Option B} {r : Run (Manager B)}
      → n ≡ n'
      → b ≡ b'
      → Goes n b r
      → Goes n' b' r
  Goes-same e f g = rw (← e, ← f) g

  pub run-Goes :
      (m : Manager B)
      → IsOwned m
      → length m.polls ≤ m.num_loops
      → Goes m.num_loops m.balance (run o m)
  unfolding run
  run-Goes m h le =
      let opened = open_polls-IsOpened (m.num_loops - length m.polls) m h in
      Goes-same opened.same.1 opened.same.0 (
        rebalanced-Goes (open_polls (m.num_loops - length m.polls) m) opened.is_owned
          (omega (arith, opened.size, opened.same.1, le)))

  pub reset-Goes : (m : Manager B) → IsOwned m → Goes m.num_loops m.balance (reset o m)
  unfolding reset
  reset-Goes m h = rw (close_polls_lem m.polls m) (
      run-Goes (record m { closed = closing m.polls m.closed; polls = [] })
        (rw (close_polls_lem m.polls m) at (close_polls-IsOwned m m.num_loops m.balance h))
        (omega arith))

  shrunk-Goes :
      (n : ℕ) (m : Manager B) (r : List ℕ × Manager B)
      → IsOwned m
      → IsShrunk n 0 [] m r
      → Goes n m.balance (shrunk o n r)
  shrunk-Goes n m r h k = Goes-same refl (ap (λ m'. m'.balance) k.same) (
      rebalanced-Goes (record r.1 { num_loops = n; polls = r.0 })
        (record {
          owned = λ p. omega (arith, k.counted p, h.owned p, opened p);
          waits = λ p. ap (λ m'. count p m'.waiting) k.same ∙ h.waits p ∙ sym (opened p);
        })
        (omega (arith, k.size)))
    where
      opened : (p : ℕ) → once p (r.1).opened ≡ once p m.opened
      opened p = ap (λ m'. once p m'.opened) k.same

  -- The test whether there was an error is dropped.
  without_lem :
      (r : Run (Manager B))
      → ◌>>=◌ {A = Bool × Manager B} (r >>= λ m. ok (true, m)) (λ x. ok x.1) ≡ r
  without_lem (ok m) = refl
  without_lem panic = refl
  without_lem out_of_fuel = refl

  pub set_positive-Goes :
      (n : ℕ) (m : Manager B) → IsManaged m → Goes n m.balance (set_positive o n m >>= λ r. ok r.1)
  set_positive-Goes n m h =
      rw
        (without_lem (
          if ltb n m.num_loops
          then shrink n m.num_loops 0 [] m >>= shrunk o n
          else run o (record m { num_loops = n })))
        (elim (Bool-cases (ltb n m.num_loops)) [
          | inl less ↦ rw less (
              let (r, e, k) = Returns-inv (IsShrunk n 0 [] m) (shrink n m.num_loops 0 [] m) (
                shrink-IsShrunk n m.num_loops 0 [] m (omega (arith, h.size))
                  (omega (arith, ltb→lt _ _ less))) in
              rw e (shrunk-Goes n m r h.is_owned k))
          | inr more ↦ rw more (
              run-Goes (record m { num_loops = n })
                (record { owned = h.is_owned.owned; waits = h.is_owned.waits })
                (ground (arith, h.size)))
        ])

  -- What a call that goes leaves.
  pub Goes-Ensures : {n : ℕ} {b : Option B} {r : Run (Manager B)} → Goes n b r → Ensures IsManaged r
  Goes-Ensures stops = Ensures-panic
  Goes-Ensures (goes h c e f) = Ensures-ok h

  pub Goes-Returns :
      {n : ℕ} {b : Option B} {r : Run (Manager B)}
      → Goes n b r
      → (c : B) × (b ≡ some c)
      → 0 < n
      → Returns IsReady r
  Goes-Returns stops (c, e) h = cc
  Goes-Returns (goes {m} k c e f) d h = record {
    is_managed = k;
    balanced = (c, e);
    running = omega (arith, f, h);
  }

  pub replaced-IsManaged : (kind : ℕ) (m : Manager B) → IsManaged m → IsManaged (replaced o kind m)
  replaced-IsManaged kind m h = record {
    is_owned = record { owned = h.is_owned.owned; waits = h.is_owned.waits };
    size = h.size;
    covered = λ b e. rw (← some_inj e) (laws.covers-new kind m.polls);
  }

  pub set_load_balance-cases :
      (kind : ℕ) (m : Manager B)
      → (set_load_balance o kind m ≡ m) ⊎ (set_load_balance o kind m ≡ replaced o kind m)
  unfolding set_load_balance
  set_load_balance-cases kind m = cases m.balance
    where
      chosen : Option B → Manager B
      chosen balance = elim balance [
        | none ↦ replaced o kind m
        | some b ↦ if o.load_balance b == kind then m else replaced o kind m
      ]

      cases : (balance : Option B) → (chosen balance ≡ m) ⊎ (chosen balance ≡ replaced o kind m)
      cases none = inr refl
      cases (some b) = elim (Bool-cases (o.load_balance b == kind)) [
        | inl e ↦ inl (rw e refl)
        | inr e ↦ inr (rw e refl)
      ]

  pub picked-IsManaged :
      (m : Manager B) (b c : B)
      → IsManaged m
      → m.balance ≡ some b
      → laws.covers c ≡ laws.covers b
      → IsManaged (record m { balance = some c })
  picked-IsManaged m b c h e f = record {
    is_owned = record { owned = h.is_owned.owned; waits = h.is_owned.waits };
    size = h.size;
    covered = λ d g. ap laws.covers (sym (some_inj g)) ∙ f ∙ h.covered b e;
  }

  pub close-IsManaged : (m : Manager B) → IsManaged m → IsManaged (close o m)
  unfolding close
  close-IsManaged m h = record {
    is_owned = close_polls-IsOwned m 0 none h.is_owned;
    size = refl;
    covered = λ b e. cc;
  }
