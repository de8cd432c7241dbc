-- ===== src/Netpoll/Tests.antt =====
-- Two goroutines that try to work on one operator, and a manager with a balance that picks the first poller.
use gocore.Common.{
  ℕ, ◌<◌, List, [], ◌∷◌, length, arith, ◌≡◌, refl, true, false, ◌==◌, if◌then◌else◌,
}
use gocore.Common.Int.{pos}
use gocore.Common.Run.{Run, ok, panic, ◌>>=◌, Ensures, Ensures-ok, Ensures-panic, Returns}
use gocore.Netpoll.Polls.{
  Balancing, Call, init, calls, pick, set_num_loops_to, resets, picks, closes, set_load_balance_to,
}
use gocore.Netpoll.Polls.Managed.{count}
use gocore.Netpoll.Polls.Keeps.{Laws, IsManaged}
use gocore.Netpoll.Polls.Picks.{init-IsManaged, picks_open}
use gocore.Netpoll.{start, inuse}
use gocore.Netpoll.Exclusion.{System, Steps, starts, inuses, done, next, one_at_work}

abbrev of_3 : System
of_3 = record { state = 2; at_work = λ j. if 3 == j then true else false }

of_3-Steps : Steps (record { state = 0; at_work = λ i. false }) of_3
unfolding start inuse
of_3-Steps = next inuses (next (starts 3) (next (starts 4) done))

one_at_work_example :
    ((i j : ℕ) → of_3.at_work i ≡ true → of_3.at_work j ≡ true → i ≡ j)
    × ((i : ℕ) → of_3.at_work i ≡ true → of_3.state ≡ 2)
one_at_work_example = one_at_work (λ i. refl) of_3-Steps

-- A balance is its kind and its pollers.
abbrev first_of : ℕ × List ℕ → Run (ℕ × (ℕ × List ℕ))
first_of (kind, []) = panic
first_of (kind, p ∷ ps) = ok (p, (kind, p ∷ ps))

abbrev first : Balancing (ℕ × List ℕ)
first = record {
  round_robin = 0;
  load_balance = λ b. b.0;
  new_load_balance = λ kind ps. (kind, ps);
  rebalance = λ b ps. (b.0, ps);
  pick = first_of;
}

first_of-Ensures : (b : ℕ × List ℕ) → Ensures (λ r. (r.1).1 ≡ b.1) (first_of b)
first_of-Ensures (kind, []) = Ensures-panic
first_of-Ensures (kind, p ∷ ps) = Ensures-ok refl

first_of-Returns : (b : ℕ × List ℕ) → 0 < length b.1 → Returns (λ r. 0 < count r.0 b.1) (first_of b)
first_of-Returns (kind, []) h = elim h [ ]
first_of-Returns (kind, p ∷ ps) h = ground arith

abbrev first_Laws : Laws first
first_Laws = record {
  covers = λ b. b.1;
  covers-new = λ kind ps. refl;
  covers-rebalance = λ b ps. refl;
  covers-pick = first_of-Ensures;
  picks_one = first_of-Returns;
}

abbrev resized : List Call
resized =
    set_num_loops_to (pos 3)
    ∷ picks
    ∷ set_num_loops_to (pos 2)
    ∷ set_load_balance_to 1
    ∷ resets
    ∷ []

init-IsManaged_example : Ensures (IsManaged first_Laws) (init first 8 >>= calls first (closes ∷ []))
init-IsManaged_example = init-IsManaged first_Laws 8 (closes ∷ [])

picks_open_example :
    Returns
      (λ r.
        (count r.0 (r.1).polls ≡ 1) × (count r.0 (r.1).waiting ≡ 1) × (count r.0 (r.1).closed ≡ 0))
      (init first 8 >>= calls first resized >>= pick first)
picks_open_example = picks_open first_Laws 8 resized (tt, (tt, (tt, (tt, (tt, tt)))))
