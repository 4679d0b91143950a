-- ===== src/Reaper.antt =====
-- The zombie reaper of vibeio/src/process/reaper.rs, on Unix: `zombie_reaper_fn_unix`, which waits for
-- SIGCHLD, and `zombie_reaper_fn_linux_pidfd`, with a task for each child. A child and a oneshot sender
-- are numbers, and what `try_wait` says of a child is an argument of the event that asks.
pub mod Answers
pub mod Senders
mod Tests
use vibeio.Prelude.{
  ℕ, zero, suc, Bool, true, false, Option, none, some, List, [], ◌∷◌, ◌++◌, Result, ok, err,
  IoError,
}
use vibeio.Calls.{Waited, exited, running, failed}

-- `ZombieReaperMessage`.
pub record ZombieReaperMessage : Type 0 where
  pub child : ℕ
  pub sender : Option ℕ

-- The children that are waited for, what has been sent, oldest first, and the messages that the end
-- of the reaper has dropped with their senders.
pub record Reaper : Type 0 where
  pub processes : List ZombieReaperMessage
  pub sent : List (ℕ × Result ℕ)
  pub dropped : List ZombieReaperMessage

-- `sender.send` where there is a sender.
abbrev pub send : Option ℕ → Result ℕ → List (ℕ × Result ℕ)
send none result = []
send (some sender) result = (sender, result) ∷ []

-- The `match` on `try_wait`, of a child that has come or that is looked at again.
unfoldable pub look_at : Waited → ZombieReaperMessage → Reaper → Reaper
look_at (exited status) message r = record r { sent = r.sent ++ send message.sender (ok status) }
look_at running message r = record r { processes = r.processes ++ message ∷ [] }
look_at (failed e) message r = record r { sent = r.sent ++ send message.sender (err e) }

-- The loop over `processes.split_off(0)`.
unfoldable pub look_at_all : (ℕ → Waited) → List ZombieReaperMessage → Reaper → Reaper
unfolding look_at
look_at_all try_wait [] r = r
look_at_all try_wait (message ∷ messages) r =
    look_at_all try_wait messages (look_at (try_wait message.child) message r)

unfoldable pub on_signal : (ℕ → Waited) → Reaper → Reaper
unfolding look_at_all
on_signal try_wait r = look_at_all try_wait r.processes (record r { processes = [] })

-- What `select` gives: a message and what `try_wait` says then, or a SIGCHLD. Each of them may be the
-- end of the reaper.
pub data Event : Type 0 where
  received : (message : ZombieReaperMessage) → Waited → Event
  closed : Event
  signalled : (ℕ → Waited) → Event
  signal_failed : IoError → Event

-- `break`, with which `processes` is dropped.
unfoldable pub stop : Reaper → Reaper
stop r = record r { processes = []; dropped = r.dropped ++ r.processes }

unfoldable pub zombie_reaper_fn_unix : List Event → Reaper → Reaper
unfolding look_at on_signal stop
zombie_reaper_fn_unix [] r = r
zombie_reaper_fn_unix (received message tried ∷ events) r =
    zombie_reaper_fn_unix events (look_at tried message r)
zombie_reaper_fn_unix (signalled try_wait ∷ events) r =
    zombie_reaper_fn_unix events (on_signal try_wait r)
zombie_reaper_fn_unix (closed ∷ events) r = stop r
zombie_reaper_fn_unix (signal_failed e ∷ events) r = stop r
