-- ===== src/Reaper/Answers.antt =====
-- Which children are answered.
use mathlib.Core.List.{append_assoc, append-nil}
use vibeio.Prelude.{
  ℕ, ◌≡◌, refl, sym, ap, ◌∙◌, Bool, true, false, Option, List, [], ◌∷◌, ◌++◌, Result, ok, err,
  if◌then◌else◌,
}
use vibeio.Calls.{Waited, exited, running, failed}
use vibeio.Reaper.{ZombieReaperMessage, Reaper, send, look_at, look_at_all, on_signal}

abbrev runs : Waited → Bool
runs (exited status) = false
runs running = true
runs (failed e) = false

-- Those that run still.
unfoldable pub still_running : (ℕ → Waited) → List ZombieReaperMessage → List ZombieReaperMessage
still_running try_wait [] = []
still_running try_wait (message ∷ messages) =
    let rest = still_running try_wait messages in
    if runs (try_wait message.child) then message ∷ rest else rest

-- What is sent for a child.
abbrev answer : Waited → Option ℕ → List (ℕ × Result ℕ)
answer (exited status) sender = send sender (ok status)
answer running sender = []
answer (failed e) sender = send sender (err e)

unfoldable pub answers : (ℕ → Waited) → List ZombieReaperMessage → List (ℕ × Result ℕ)
answers try_wait [] = []
answers try_wait (message ∷ messages) =
    answer (try_wait message.child) message.sender ++ answers try_wait messages

if-append :
    (b : Bool) (message : ZombieReaperMessage) (rest : List ZombieReaperMessage)
    → (if b then message ∷ [] else []) ++ rest ≡ (if b then message ∷ rest else rest)
if-append true message rest = refl
if-append false message rest = refl

pub look_at-split :
    (tried : Waited) (message : ZombieReaperMessage) (r : Reaper)
    → look_at tried message r ≡ record {
      processes = r.processes ++ (if runs tried then message ∷ [] else []);
      sent = r.sent ++ answer tried message.sender;
      dropped = r.dropped;
    }
unfolding look_at
look_at-split (exited status) message r =
    ap (λ ps. record r { processes = ps; sent = r.sent ++ send message.sender (ok status) })
      (sym (append-nil r.processes))
look_at-split running message r =
    ap (λ ss. record r { processes = r.processes ++ message ∷ []; sent = ss })
      (sym (append-nil r.sent))
look_at-split (failed e) message r =
    ap (λ ps. record r { processes = ps; sent = r.sent ++ send message.sender (err e) })
      (sym (append-nil r.processes))

look_at_all-split :
    (try_wait : ℕ → Waited) (messages : List ZombieReaperMessage) (r : Reaper)
    → look_at_all try_wait messages r ≡ record {
      processes = r.processes ++ still_running try_wait messages;
      sent = r.sent ++ answers try_wait messages;
      dropped = r.dropped;
    }
unfolding look_at_all still_running answers
look_at_all-split try_wait [] r =
    ap (λ ps. record r { processes = ps }) (sym (append-nil r.processes))
    ∙ ap (λ ss. record r { processes = r.processes ++ []; sent = ss }) (sym (append-nil r.sent))
look_at_all-split try_wait (message ∷ messages) r =
    let tried = try_wait message.child in
    let one = if runs tried then message ∷ [] else [] in
    let rest = still_running try_wait messages in
    ap (look_at_all try_wait messages) (look_at-split tried message r)
    ∙ look_at_all-split try_wait messages
        (record r { processes = r.processes ++ one; sent = r.sent ++ answer tried message.sender })
    ∙ ap
        (λ ps. record r {
          processes = ps;
          sent = (r.sent ++ answer tried message.sender) ++ answers try_wait messages;
        })
        (append_assoc r.processes one rest
          ∙ ap (λ ps. r.processes ++ ps) (if-append (runs tried) message rest))
    ∙ ap
        (λ ss. record r {
          processes = r.processes ++ (if runs tried then message ∷ rest else rest);
          sent = ss;
        })
        (append_assoc r.sent (answer tried message.sender) (answers try_wait messages))

-- After a SIGCHLD the reaper waits for the children that run still, in the order in which they came,
-- and has answered the others, each with what `try_wait` said of it.
pub on_signal_lem :
    (try_wait : ℕ → Waited) (r : Reaper)
    → on_signal try_wait r ≡ record {
      processes = still_running try_wait r.processes;
      sent = r.sent ++ answers try_wait r.processes;
      dropped = r.dropped;
    }
unfolding on_signal
on_signal_lem try_wait r = look_at_all-split try_wait r.processes (record r { processes = [] })
