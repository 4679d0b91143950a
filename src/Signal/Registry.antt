-- ===== src/Signal/Registry.antt =====
-- The registry of the signals, and the actions that the system has for them.
use vibeio.Prelude.{
  ℕ, ◌+◌, ◌-◌, ◌<◌, ◌≡◌, Option, none, some, inl, inr, Option-cases, Result, ok, err, IoError, ltb,
  arith, ◌==◌, if◌then◌else◌,
}

-- `sigaction` of a signal: `signal_handler`, or what was there before, known by a number.
pub data Action : Type 0 where
  ours : Action
  foreign : (action : ℕ) → Action

-- `state` is the `Arc`, known by a number.
pub record RegisteredSignal : Type 0 where
  pub state : ℕ
  pub refs : ℕ
  pub prev_action : Action

-- `next_state` is the number of the next `Arc`.
pub record Registry : Type 0 where
  pub signals : ℕ → Option RegisteredSignal
  pub actions : ℕ → Action
  pub next_state : ℕ

abbrev pub set_signal : Registry → ℕ → Option RegisteredSignal → Registry
set_signal r k entry = record r { signals = λ j. if k == j then entry else r.signals j }

-- `install_handler` where the system lets it, and `restore_handler`.
abbrev pub set_action : Registry → ℕ → Action → Registry
set_action r k action = record r { actions = λ j. if k == j then action else r.actions j }

-- `refused` is the error of `install_handler`, if the system refuses the signal.
unfoldable pub register_signal : Registry → ℕ → Option IoError → Result ℕ × Registry
register_signal r k refused = elim (r.signals k) [
  | some entry ↦ (ok entry.state, set_signal r k (some (record entry { refs = entry.refs + 1 })))
  | none ↦ elim refused [
    | some e ↦ (err e, r)
    | none ↦ (
      ok r.next_state,
      set_signal (set_action (record r { next_state = r.next_state + 1 }) k ours) k
          (some (record { state = r.next_state; refs = 1; prev_action = r.actions k })),
    )
  ]
]

-- The part of `unregister_signal` under the lock: the action that is to be restored after it.
unfoldable pub release : Registry → ℕ → Option Action × Registry
release r k = elim (r.signals k) [
  | none ↦ (none, r)
  | some entry ↦
      if ltb 1 entry.refs
      then (none, set_signal r k (some (record entry { refs = entry.refs - 1 })))
      else (some entry.prev_action, set_signal r k none)
]

unfoldable pub restore : Registry → ℕ → Option Action → Registry
restore r k none = r
restore r k (some action) = set_action r k action

unfoldable pub unregister_signal : Registry → ℕ → Registry
unfolding release restore
unregister_signal r k = let released = release r k in restore released.1 k released.0

-- A registered signal has a listener.
unfoldable pub IsCounted : Registry → Type 0
IsCounted r = (j : ℕ) (entry : RegisteredSignal) → r.signals j ≡ some entry → 0 < entry.refs

-- A listener that comes and goes leaves the registry and the system's actions as they were, where
-- every registered signal has a listener.
pub unregister-register :
    (r : Registry) (k j : ℕ)
    → IsCounted r
    → let r' = unregister_signal (register_signal r k none).1 k in
      (r'.signals j ≡ r.signals j) × (r'.actions j ≡ r.actions j)
unfolding unregister_signal register_signal IsCounted
unregister-register r k j h = elim (Option-cases (r.signals k)) [
  | inl p ↦ (ground arith, ground arith)
  | inr (entry, p) ↦ (ground (arith, h k entry p), ground (arith, h k entry p))
]

-- Where the last listener of a signal goes and a new one comes between the end of the lock and the
-- call that restores the old action, the signal is registered with one listener, and the system has
-- the old action for it: the new listener hears nothing.
pub late_restore_loses_handler :
    (r : Registry) (k : ℕ) (entry : RegisteredSignal)
    → r.signals k ≡ some entry
    → entry.refs ≡ 1
    → let released = release r k in
      let registered = register_signal released.1 k none in
      let r' = restore registered.1 k released.0 in
      (r'.actions k ≡ entry.prev_action)
      × (r'.signals k ≡ some (record { state = r.next_state; refs = 1; prev_action = r.actions k }))
unfolding release register_signal restore
late_restore_loses_handler r k entry p q = (ground arith, ground arith)
