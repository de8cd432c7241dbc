-- ===== src/Netpoll/PollDesc/Waits.antt =====
-- netpoll/net_polldesc.go: `WaitWrite` never succeeds, since `onwrite` closes the wrong channel.
use gocore.Common.{
  ℕ, ◌≡◌, ◌≢◌, refl, inl, inr, Bool, true, false, List, [], ◌∷◌, Option, none, some, if◌then◌else◌,
  Bool-cases,
}
use gocore.Common.Run.{
  panic, Ensures, Ensures-map, Ensures-ok, Ensures-panic, Ensures-bind, Ensures-if,
}
use gocore.Netpoll.{is_unused}
use gocore.Netpoll.PollDesc.{
  PollDesc, WaitErr, Case, on_close, on_writable, on_done, Ended, returned, waiting, wait_write,
  Event, writes, hangs_up, on_events, on_write, on_hup, close_again, selected, registered, freed,
}

-- Nobody has closed `writeTrigger`.
record IsMute (d : PollDesc) : Type 0 where
  mute : d.write_trigger ≡ false

close_again-IsMute :
    (closed : Bool) (d : PollDesc) → IsMute d → Ensures IsMute (close_again closed d)
close_again-IsMute true d h = Ensures-panic
close_again-IsMute false d h = Ensures-ok (record { mute = h.mute })

on_events-IsMute : (es : List Event) (d : PollDesc) → IsMute d → Ensures IsMute (on_events es d)
unfolding on_events on_write on_hup
on_events-IsMute [] d h = Ensures-ok h
on_events-IsMute (writes ∷ es) d h =
    Ensures-bind IsMute _
      (Ensures-if d.write_trigger (Ensures-ok h) (close_again-IsMute d.close_trigger d h))
      (on_events-IsMute es)
on_events-IsMute (hangs_up ∷ es) d h =
    Ensures-bind IsMute _
      (Ensures-if d.close_trigger (Ensures-ok h) (close_again-IsMute d.close_trigger d h))
      (on_events-IsMute es)

-- It waits, or gives an error.
data Fails : Ended → Type 0 where
  waits_on : Fails waiting
  gives : (e : WaitErr) → Fails (returned (some e))

checked-Fails : (b : Bool) (e e' : WaitErr) → Fails (returned (if b then some e else some e'))
checked-Fails true e e' = gives e
checked-Fails false e e' = gives e'

selected-Fails : (c : Case) (ctx : Option ℕ) (d : PollDesc) → IsMute d → Fails (selected c ctx d)
selected-Fails on_close ctx d h = elim (Bool-cases d.close_trigger) [
  | inl e ↦ rw e (gives _)
  | inr e ↦ rw e waits_on
]
selected-Fails on_writable ctx d h = rw h.mute waits_on
selected-Fails on_done none d h = waits_on
selected-Fails on_done (some e) d h = checked-Fails d.close_trigger _ _

freed-Fails : (r : Ended) (d : PollDesc) → Fails r → Fails (freed r d).0
freed-Fails waiting d h = h
freed-Fails (returned none) d h = h
freed-Fails (returned (some e)) d h = h

wait_write-Fails :
    (control : Option ℕ) (c : Case) (ctx : Option ℕ) (d : PollDesc)
    → IsMute d
    → Fails (wait_write control c ctx d).0
unfolding wait_write
wait_write-Fails control c ctx d h = elim (Bool-cases (is_unused d.operator)) [
  | inl e ↦ rw e (freed-Fails _ d (known control))
  | inr e ↦ rw e (freed-Fails _ d (selected-Fails c ctx d h))
]
  where
    known : (control : Option ℕ) → Fails (registered control c ctx d)
    known none = selected-Fails c ctx d h
    known (some e) = gives _

Fails-none : {r : Ended} → Fails r → r ≢ returned none
Fails-none waits_on e = cc
Fails-none (gives x) e = cc

-- Whatever the poller tells a new pollDesc, that it is writable or that the peer hung up, any number of times, if that
-- returns, `WaitWrite` never returns without an error, whichever case it takes.
pub on_events-fails :
    (es : List Event) (operator : ℕ)
    → Ensures
        (λ d.
          (control : Option ℕ) (c : Case) (ctx : Option ℕ)
          → (wait_write control c ctx d).0 ≢ returned none)
        (on_events es (record {
          operator = operator;
          is_freed = false;
          write_trigger = false;
          close_trigger = false;
        }))
on_events-fails es operator =
    Ensures-map
      (on_events es (record {
        operator = operator;
        is_freed = false;
        write_trigger = false;
        close_trigger = false;
      }))
      (on_events-IsMute es _ (record { mute = refl }))
      λ d h control c ctx. Fails-none (wait_write-Fails control c ctx d h)

-- The second time that a new pollDesc is told that it is writable panics, as does the first after a hang-up.
pub on_events-panics :
    (d : PollDesc) (first : Event)
    → d.write_trigger ≡ false
    → d.close_trigger ≡ false
    → on_events (first ∷ writes ∷ []) d ≡ panic
unfolding on_events on_write on_hup
on_events-panics d writes h k = rw (h, k) refl
on_events-panics d hangs_up h k = rw (k, h) refl
