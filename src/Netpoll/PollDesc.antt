-- ===== src/Netpoll/PollDesc.antt =====
-- netpoll/net_polldesc.go: the wait for a connection to become writable. Of its two channels it counts whether they are
-- closed, since nothing is sent on them.
pub mod Waits
mod Tests
use gocore.Common.{ℕ, Bool, true, false, ◌&&◌, List, [], ◌∷◌, Option, none, some, if◌then◌else◌}
use gocore.Common.Run.{Run, ok, panic, ◌>>=◌}
use gocore.Netpoll.{is_unused}

-- `operator` is the state of the operator, and `is_freed` whether `Free` was called of it.
pub record PollDesc : Type 0 where
  pub operator : ℕ
  pub is_freed : Bool
  pub write_trigger : Bool
  pub close_trigger : Bool

pub data WaitErr : Type 0 where
  closed_by_peer : WaitErr
  of_control : ℕ → WaitErr
  of_context : ℕ → WaitErr

-- Closing a channel that is closed panics.
abbrev close_again : Bool → PollDesc → Run PollDesc
close_again true d = panic
close_again false d = ok (record d { close_trigger = true })

unfoldable pub on_write : PollDesc → Run PollDesc
on_write d = if d.write_trigger then ok d else close_again d.close_trigger d

unfoldable pub on_hup : PollDesc → Run PollDesc
on_hup d = if d.close_trigger then ok d else close_again d.close_trigger d

-- The case that `select` takes; one that is not ready waits.
pub data Case : Type 0 where
  on_close on_writable on_done : Case

-- How `WaitWrite` ends: it returns, or it still waits.
pub data Ended : Type 0 where
  returned : Option WaitErr → Ended
  waiting : Ended

-- The second look at `closeTrigger`.
abbrev checked : PollDesc → Option WaitErr → Ended
checked d err = returned (if d.close_trigger then some closed_by_peer else err)

abbrev selected : Case → Option ℕ → PollDesc → Ended
selected on_close ctx d = if d.close_trigger then returned (some closed_by_peer) else waiting
selected on_writable ctx d = if d.write_trigger then checked d none else waiting
selected on_done none d = waiting
selected on_done (some e) d = checked d (some (of_context e))

-- An error frees the operator.
abbrev freed : Ended → PollDesc → Ended × PollDesc
freed waiting d = (waiting, d)
freed (returned none) d = (returned none, d)
freed (returned (some e)) d = (returned (some e), record d { is_freed = true })

abbrev registered : Option ℕ → Case → Option ℕ → PollDesc → Ended
registered none c ctx d = selected c ctx d
registered (some e) c ctx d = returned (some (of_control e))

-- `WaitWrite`, with the error of `Control`, the case that is taken and the error of the context, if it is done.
unfoldable pub wait_write : Option ℕ → Case → Option ℕ → PollDesc → Ended × PollDesc
unfolding is_unused
wait_write control c ctx d =
    freed (if is_unused d.operator then registered control c ctx d else selected c ctx d) d

-- What the poller calls.
pub data Event : Type 0 where
  writes hangs_up : Event

unfoldable pub on_events : List Event → PollDesc → Run PollDesc
unfolding on_write on_hup
on_events [] d = ok d
on_events (writes ∷ es) d = on_write d >>= on_events es
on_events (hangs_up ∷ es) d = on_hup d >>= on_events es
