-- ===== src/Reaper/Senders.antt =====
-- Which senders are used.
use mathlib.Core.List.{append_assoc}
use vibeio.Prelude.{
  ℕ, ◌+◌, ◌≡◌, refl, sym, ap, ◌∙◌, ◌⊎◌, inl, inr, Bool, true, false, Option, none, some, List, [],
  ◌∷◌, ◌++◌, Result, ok, err, count, count-append, count-nil, arith,
}
use vibeio.Calls.{Waited, exited, running, failed}
use vibeio.Reaper.Answers.{look_at-split, on_signal_lem}
use vibeio.Reaper.{
  ZombieReaperMessage, Reaper, send, look_at, look_at_all, on_signal, Event, received, closed,
  signalled, signal_failed, zombie_reaper_fn_unix, stop,
}

abbrev pub sender_of : Option ℕ → List ℕ
sender_of none = []
sender_of (some sender) = sender ∷ []

-- The senders of messages, and those that have been used.
unfoldable pub senders : List ZombieReaperMessage → List ℕ
senders [] = []
senders (message ∷ messages) = sender_of message.sender ++ senders messages

unfoldable pub used : List (ℕ × Result ℕ) → List ℕ
used [] = []
used ((sender, result) ∷ sent) = sender ∷ used sent

-- The messages that come before the reaper ends.
unfoldable pub taken : List Event → List ZombieReaperMessage
taken [] = []
taken (received message tried ∷ events) = message ∷ taken events
taken (signalled try_wait ∷ events) = taken events
taken (closed ∷ events) = []
taken (signal_failed e ∷ events) = []

-- Whether they end it.
unfoldable pub ends : List Event → Bool
ends [] = false
ends (received message tried ∷ events) = ends events
ends (signalled try_wait ∷ events) = ends events
ends (closed ∷ events) = true
ends (signal_failed e ∷ events) = true

-- How often a sender has been used, is waiting or has been dropped.
unfoldable pub tally : ℕ → Reaper → ℕ
tally sender r =
    count sender (used r.sent)
    + count sender (senders r.processes)
    + count sender (senders r.dropped)

used-append : (xs ys : List (ℕ × Result ℕ)) → used (xs ++ ys) ≡ used xs ++ used ys
unfolding used
used-append [] ys = refl
used-append ((sender, result) ∷ xs) ys = ap (λ zs. sender ∷ zs) (used-append xs ys)

senders-append : (xs ys : List ZombieReaperMessage) → senders (xs ++ ys) ≡ senders xs ++ senders ys
unfolding senders
senders-append [] ys = refl
senders-append (message ∷ xs) ys =
    ap (λ zs. sender_of message.sender ++ zs) (senders-append xs ys)
    ∙ sym (append_assoc (sender_of message.sender) (senders xs) (senders ys))

count-used-append :
    (k : ℕ) (xs ys : List (ℕ × Result ℕ))
    → count k (used (xs ++ ys)) ≡ count k (used xs) + count k (used ys)
count-used-append k xs ys = ap (count k) (used-append xs ys) ∙ count-append k (used xs) (used ys)

count-senders-append :
    (k : ℕ) (xs ys : List ZombieReaperMessage)
    → count k (senders (xs ++ ys)) ≡ count k (senders xs) + count k (senders ys)
count-senders-append k xs ys =
    ap (count k) (senders-append xs ys) ∙ count-append k (senders xs) (senders ys)

used-send :
    (k child : ℕ) (sender : Option ℕ) (result : Result ℕ)
    → count k (used (send sender result))
      ≡ count k (senders (record { child = child; sender = sender } ∷ []))
unfolding used senders
used-send k child none result = refl
used-send k child (some sender) result = refl

tally-look_at :
    (k : ℕ) (tried : Waited) (message : ZombieReaperMessage) (r : Reaper)
    → tally k (look_at tried message r) ≡ tally k r + count k (senders (message ∷ []))
unfolding tally look_at
tally-look_at k (exited status) message r = omega (
  arith,
  count-used-append k r.sent (send message.sender (ok status)),
  used-send k message.child message.sender (ok status),
)
tally-look_at k running message r = omega (arith, count-senders-append k r.processes (message ∷ []))
tally-look_at k (failed e) message r = omega (
  arith,
  count-used-append k r.sent (send message.sender (err e)),
  used-send k message.child message.sender (err e),
)

no_senders : senders [] ≡ []
unfolding senders
no_senders = refl

tally-look_at_all :
    (k : ℕ) (try_wait : ℕ → Waited) (messages : List ZombieReaperMessage) (r : Reaper)
    → tally k (look_at_all try_wait messages r) ≡ tally k r + count k (senders messages)
unfolding look_at_all
tally-look_at_all k try_wait [] r = omega (arith, ap (count k) no_senders, count-nil k)
tally-look_at_all k try_wait (message ∷ messages) r =
    let first = look_at (try_wait message.child) message r in
    omega (
      arith,
      tally-look_at_all k try_wait messages first,
      tally-look_at k (try_wait message.child) message r,
      count-senders-append k (message ∷ []) messages,
    )

tally-on_signal :
    (k : ℕ) (try_wait : ℕ → Waited) (r : Reaper) → tally k (on_signal try_wait r) ≡ tally k r
unfolding on_signal tally
tally-on_signal k try_wait r =
    let none_left : count k (senders []) ≡ 0 = ap (count k) no_senders ∙ count-nil k in
    omega (arith, tally-look_at_all k try_wait r.processes (record r { processes = [] }), none_left)

tally-stop : (k : ℕ) (r : Reaper) → tally k (stop r) ≡ tally k r
unfolding tally stop
tally-stop k r =
    omega
      (arith, ap (count k) no_senders, count-nil k, count-senders-append k r.dropped r.processes)

tally_all :
    (k : ℕ) (events : List Event) (r : Reaper)
    → tally k (zombie_reaper_fn_unix events r) ≡ tally k r + count k (senders (taken events))
unfolding zombie_reaper_fn_unix taken
tally_all k [] r = omega (arith, ap (count k) no_senders, count-nil k)
tally_all k (closed ∷ events) r =
    omega (arith, tally-stop k r, ap (count k) no_senders, count-nil k)
tally_all k (signal_failed e ∷ events) r =
    omega (arith, tally-stop k r, ap (count k) no_senders, count-nil k)
tally_all k (signalled try_wait ∷ events) r =
    tally_all k events (on_signal try_wait r)
    ∙ ap (λ n. n + count k (senders (taken events))) (tally-on_signal k try_wait r)
tally_all k (received message tried ∷ events) r = omega (
  arith,
  tally_all k events (look_at tried message r),
  tally-look_at k tried message r,
  count-senders-append k (message ∷ []) (taken events),
)

-- What is left is nobody after the end, and before it nobody has been dropped.
abbrev pub IsSettled : List Event → Reaper → Reaper → Type 0
IsSettled events r after =
    ((ends events ≡ true) × (after.processes ≡ []))
    ⊎ ((ends events ≡ false) × (after.dropped ≡ r.dropped))

dropped_same :
    (events : List Event) (r r' after : Reaper)
    → r'.dropped ≡ r.dropped
    → IsSettled events r' after
    → IsSettled events r after
dropped_same events r r' after p (inl h) = inl h
dropped_same events r r' after p (inr (e, q)) = inr (e, q ∙ p)

settles : (events : List Event) (r : Reaper) → IsSettled events r (zombie_reaper_fn_unix events r)
unfolding zombie_reaper_fn_unix ends stop
settles [] r = inr (refl, refl)
settles (closed ∷ events) r = inl (refl, refl)
settles (signal_failed e ∷ events) r = inl (refl, refl)
settles (signalled try_wait ∷ events) r =
    let next = on_signal try_wait r in
    dropped_same events r next (zombie_reaper_fn_unix events next)
      (ap (λ (s : Reaper). s.dropped) (on_signal_lem try_wait r)) (settles events next)
settles (received message tried ∷ events) r =
    let next = look_at tried message r in
    dropped_same events r next (zombie_reaper_fn_unix events next)
      (ap (λ (s : Reaper). s.dropped) (look_at-split tried message r)) (settles events next)

-- Each time that a sender has come with a child before the reaper ends, it has been used once, or its
-- child is still waited for, or it has been dropped. A sender is dropped only by the end of the
-- reaper, the channel closed or the signal failed, after which no child is waited for.
pub tally-zombie_reaper_fn_unix :
    (k : ℕ) (events : List Event) (r : Reaper)
    → let after = zombie_reaper_fn_unix events r in
      (tally k after ≡ tally k r + count k (senders (taken events)))
      × (((ends events ≡ true) × (after.processes ≡ []))
          ⊎ ((ends events ≡ false) × (after.dropped ≡ r.dropped)))
tally-zombie_reaper_fn_unix k events r = (tally_all k events r, settles events r)
