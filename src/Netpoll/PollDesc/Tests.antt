-- ===== src/Netpoll/PollDesc/Tests.antt =====
-- A pollDesc whose peer hangs up before it is writable.
use gocore.Common.{ℕ, ◌≢◌, false, [], ◌∷◌, Option, none}
use gocore.Common.Run.{Ensures}
use gocore.Netpoll.PollDesc.{PollDesc, Case, returned, wait_write, on_events, writes}
use gocore.Netpoll.PollDesc.Waits.{on_events-fails}

abbrev fresh : PollDesc
fresh = record { operator = 1; is_freed = false; write_trigger = false; close_trigger = false }

on_events-fails_example :
    Ensures
      (λ d.
        (control : Option ℕ) (c : Case) (ctx : Option ℕ)
        → (wait_write control c ctx d).0 ≢ returned none)
      (on_events (writes ∷ []) fresh)
on_events-fails_example = on_events-fails (writes ∷ []) 1
