-- ===== src/Netpoll/Polls/Picks.antt =====
-- netpoll/poll_manager.go: the manager after any calls, and the poller that it picks.
use gocore.Common.{
  ℕ, ◌+◌, ◌<◌, ◌/◌, ◌≡◌, refl, sym, ap, ◌∙◌, inl, inr, false, List, [], ◌∷◌, none, some, ltb, All,
  arith, from_some, Bool-cases, Option-cases,
}
use gocore.Common.Int.{ℤ, pos, negsuc}
use gocore.Common.Run.{
  Run, ok, panic, ◌>>=◌, Returns, Returns-map, Returns-bind, Returns-inv, Ensures, Ensures-bind,
  Ensures-ok, Ensures-panic, Ensures-of_eq,
}
use gocore.Netpoll.Polls.{
  Manager, Balancing, Call, set_num_loops, set_load_balance, pick, close, init, call, calls,
  set_num_loops_to, set_load_balance_to, closes, resets, runs, picks,
}
use gocore.Netpoll.Polls.Managed.{count}
use gocore.Netpoll.Polls.Keeps.{
  Laws, IsManaged, IsReady, set_positive-Goes, run-Goes, reset-Goes, Goes-Ensures, Goes-Returns,
  replaced-IsManaged, set_load_balance-cases, picked-IsManaged, close-IsManaged, Goes, stops,
}

abbrev pub IsOpen : Call → Type 0
IsOpen closes = ⊥
IsOpen c = Unit

module _ {B : Type 0} {o : Balancing B} (laws : Laws o) where
  -- What holds of an error-free set_num_loops holds of any.
  set_num_loops-Ensures :
      (z : ℤ) (m : Manager B)
      → IsManaged laws m
      → Ensures (IsManaged laws) (set_num_loops o z m >>= λ r. ok r.1)
  unfolding set_num_loops
  set_num_loops-Ensures (negsuc n) m h = Ensures-ok h
  set_num_loops-Ensures (pos n) m h = elim (Bool-cases (ltb n 1)) [
    | inl zero_ ↦ rw zero_ (Ensures-ok h)
    | inr some_ ↦ rw some_ (Goes-Ensures laws (set_positive-Goes laws n m h))
  ]

  set_num_loops-Returns :
      (z : ℤ) (m : Manager B)
      → IsReady laws m
      → Returns (IsReady laws) (set_num_loops o z m >>= λ r. ok r.1)
  unfolding set_num_loops
  set_num_loops-Returns (negsuc n) m h = h
  set_num_loops-Returns (pos n) m h = elim (Bool-cases (ltb n 1)) [
    | inl zero_ ↦ rw zero_ h
    | inr some_ ↦
        rw some_
          (Goes-Returns laws (set_positive-Goes laws n m h.is_managed) h.balanced (ground arith))
  ]

  set_load_balance-IsManaged :
      (kind : ℕ) (m : Manager B) → IsManaged laws m → IsManaged laws (set_load_balance o kind m)
  set_load_balance-IsManaged kind m h = elim (set_load_balance-cases laws kind m) [
    | inl e ↦ rw e h
    | inr e ↦ rw e (replaced-IsManaged laws kind m h)
  ]

  set_load_balance-IsReady :
      (kind : ℕ) (m : Manager B) → IsReady laws m → IsReady laws (set_load_balance o kind m)
  set_load_balance-IsReady kind m h = elim (set_load_balance-cases laws kind m) [
    | inl e ↦ rw e h
    | inr e ↦ rw e (record {
      is_managed = replaced-IsManaged laws kind m h.is_managed;
      balanced = (o.new_load_balance kind m.polls, refl);
      running = h.running;
    })
  ]

  pick-IsManaged : (m : Manager B) → IsManaged laws m → Ensures (λ r. IsManaged laws r.1) (pick o m)
  unfolding pick
  pick-IsManaged m h = elim (Option-cases m.balance) [
    | inl e ↦ rw e Ensures-panic
    | inr (b, e) ↦ rw e (
        Ensures-bind (λ r. laws.covers r.1 ≡ laws.covers b) (o.pick b) (laws.covers-pick b)
          λ r k. Ensures-ok (picked-IsManaged laws m b r.1 h e k))
  ]

  -- One of the pollers is picked, and nothing else changes than the balance.
  record IsPicked (m : Manager B) (r : ℕ × Manager B) : Type 0 where
    is_ready : IsReady laws r.1
    is_one : 0 < count r.0 (r.1).polls

  pick-IsPicked : (m : Manager B) → IsReady laws m → Returns (IsPicked m) (pick o m)
  unfolding pick
  pick-IsPicked m h =
      let (b, e) = h.balanced in
      let covered = h.is_managed.covered b e in
      let (r, f, k) =
        Returns-inv (λ r. 0 < count r.0 (laws.covers b)) (o.pick b)
          (laws.picks_one b (rw covered (omega (arith, h.running, h.is_managed.size)))) in
      rw (e, f)
        (record {
          is_ready = record {
            is_managed =
                picked-IsManaged laws m b r.1 h.is_managed e (Ensures-of_eq (laws.covers-pick b) f);
            balanced = (r.1, refl);
            running = h.running;
          };
          is_one = rw covered at k;
        })

  call-IsManaged :
      (c : Call) (m : Manager B) → IsManaged laws m → Ensures (IsManaged laws) (call o c m)
  unfolding call pick
  call-IsManaged (set_num_loops_to z) m h = set_num_loops-Ensures z m h
  call-IsManaged (set_load_balance_to kind) m h = Ensures-ok (set_load_balance-IsManaged kind m h)
  call-IsManaged closes m h = Ensures-ok (close-IsManaged laws m h)
  call-IsManaged resets m h = Goes-Ensures laws (reset-Goes laws m h.is_owned)
  call-IsManaged runs m h = Goes-Ensures laws (run-Goes laws m h.is_owned (omega (arith, h.size)))
  call-IsManaged picks m h =
      Ensures-bind (λ r. IsManaged laws r.1) (pick o m) (pick-IsManaged m h) λ r k. Ensures-ok k

  call-IsReady :
      (c : Call) (m : Manager B) → IsOpen c → IsReady laws m → Returns (IsReady laws) (call o c m)
  unfolding call pick
  call-IsReady (set_num_loops_to z) m u h = set_num_loops-Returns z m h
  call-IsReady (set_load_balance_to kind) m u h = set_load_balance-IsReady kind m h
  call-IsReady closes m u h = absurd u
  call-IsReady resets m u h =
      Goes-Returns laws (reset-Goes laws m h.is_managed.is_owned) h.balanced h.running
  call-IsReady runs m u h =
      Goes-Returns laws (run-Goes laws m h.is_managed.is_owned (omega (arith, h.is_managed.size)))
        h.balanced h.running
  call-IsReady picks m u h =
      Returns-bind (IsPicked m) (IsReady laws) (pick o m) (λ r. ok r.1) (pick-IsPicked m h)
        λ r k. k.is_ready

  calls-IsManaged :
      (cs : List Call) (m : Manager B) → IsManaged laws m → Ensures (IsManaged laws) (calls o cs m)
  unfolding calls
  calls-IsManaged [] m h = Ensures-ok h
  calls-IsManaged (c ∷ cs) m h =
      Ensures-bind (IsManaged laws) (call o c m) (call-IsManaged c m h) (calls-IsManaged cs)

  calls-IsReady :
      (cs : List Call) (m : Manager B)
      → All IsOpen cs
      → IsReady laws m
      → Returns (IsReady laws) (calls o cs m)
  unfolding calls
  calls-IsReady [] m u h = h
  calls-IsReady (c ∷ cs) m u h =
      Returns-bind (IsReady laws) (IsReady laws) (call o c m) (calls o cs) (call-IsReady c m u.0 h)
        λ m' k. calls-IsReady cs m' u.1 k

  init-IsReady : (procs : ℕ) → Returns (IsReady laws) (init o procs)
  unfolding init set_num_loops set_load_balance
  init-IsReady procs =
      let some_ : ltb (procs / 20 + 1) 1 ≡ false = ground arith in
      rw some_ (
        Goes-Returns laws
          (set_positive-Goes laws (procs / 20 + 1) empty (record {
            is_owned = record { owned = λ p. ground arith; waits = λ p. ground arith };
            size = refl;
            covered =
                λ b e. ap laws.covers (sym (ap (from_some b) e)) ∙ laws.covers-new o.round_robin [];
          }))
          (o.new_load_balance o.round_robin [], refl) (omega arith))
    where
      empty : Manager B
      empty = record {
        num_loops = 0;
        balance = some (o.new_load_balance o.round_robin []);
        polls = [];
        opened = 0;
        waiting = [];
        closed = [];
      }

  -- From the start, after any calls of the manager that return, there are as many pollers as loops, the load balance, if
  -- there is one, is over them, every poller that was opened is either the manager's or was closed, once, and every one
  -- of them waits, in one goroutine.
  pub init-IsManaged :
      (procs : ℕ) (cs : List Call) → Ensures (IsManaged laws) (init o procs >>= calls o cs)
  init-IsManaged procs cs =
      let (m, e, h) = Returns-inv (IsReady laws) (init o procs) (init-IsReady procs) in
      rw e (calls-IsManaged cs m h.is_managed)

  -- As long as the manager is not closed, no call of it panics, and it picks a poller that is its own, waits, and is not
  -- closed.
  pub picks_open :
      (procs : ℕ) (cs : List Call)
      → All IsOpen cs
      → Returns
          (λ r.
            (count r.0 (r.1).polls ≡ 1)
            × (count r.0 (r.1).waiting ≡ 1)
            × (count r.0 (r.1).closed ≡ 0))
          (init o procs >>= calls o cs >>= pick o)
  picks_open procs cs u =
      let (m, e, h) = Returns-inv (IsReady laws) (init o procs) (init-IsReady procs) in
      let (m', e', h') = Returns-inv (IsReady laws) (calls o cs m) (calls-IsReady cs m u h) in
      rw (e, e')
        (Returns-map (IsPicked m') _ (pick o m') (pick-IsPicked m' h') λ r k.
          let own = k.is_ready.is_managed.is_owned in
          ground (arith, own.owned r.0, own.waits r.0, k.is_one))

  stopped : {n : ℕ} {r : Run (Manager B)} → Goes laws n none r → r ≡ panic
  stopped stops = refl

  -- Once the manager is closed, any valid number of loops panics: the new pollers are opened, and there is no balance to
  -- tell.
  pub set_num_loops-close :
      (n : ℕ) (m : Manager B)
      → IsManaged laws m
      → 0 < n
      → (set_num_loops o (pos n) (close o m) >>= λ r. ok r.1) ≡ panic
  unfolding set_num_loops close
  set_num_loops-close n m h le =
      let some_ : ltb n 1 ≡ false = ground arith in
      rw some_ (stopped (set_positive-Goes laws n (close o m) (close-IsManaged laws m h)))
