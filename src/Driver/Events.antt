-- ===== src/Driver/Events.antt =====
-- What a wait does with its events: whom it wakes, and what is left of the registrations.
use vibeio.Prelude.{
  ℕ, ◌≡◌, ◌≢◌, Bool, true, false, not, none, some, inl, inr, List, [], ◌∷◌, arith, ◌==◌, ◌&&◌,
  if◌then◌else◌, Bool-cases, has, has-append, has-cons, has-nil,
}
use mathlib.Core.Option
use vibeio.Slab.{Slab}
use vibeio.Driver.{Registration, handle_event, handle_events, take_waiter, woken, interrupt_token}

module _ {S : Type 0} ⦃slab : Slab S Registration⦄ where
  -- Whether the registration at `token` waits with this waker.
  unfoldable pub waits : S → ℕ → ℕ → Bool
  waits s token waker = elim (slab.get s token) [
    | none ↦ false
    | some r ↦ has waker (woken r.waiter)
  ]

  -- After the events, a registration that had one has no waiter and no interest, and every other one
  -- is as it was.
  pub get-handle_event :
      (s : S) (token j : ℕ)
      → slab.get (handle_event s token).1 j ≡ (
          if token == j && not (token == interrupt_token)
          then Option.map take_waiter (slab.get s j)
          else slab.get s j)
  unfolding handle_event
  get-handle_event s token j = ground (arith, slab.get-update s token take_waiter j)

  pub get-handle_events :
      (s : S) (events : List ℕ) (j : ℕ)
      → slab.get (handle_events s events).1 j ≡ (
          if has j events && not (j == interrupt_token)
          then Option.map take_waiter (slab.get s j)
          else slab.get s j)
  unfolding handle_events
  get-handle_events s [] j = ground (arith, has-nil j)
  get-handle_events s (token ∷ events) j = ground (
    arith,
    get-handle_events (handle_event s token).1 events j,
    get-handle_event s token j,
    has-cons j token events,
  )

  -- A waiter whose token has an event is woken.
  pub handle_events_wakes :
      (s : S) (events : List ℕ) (token waker : ℕ)
      → token ≢ interrupt_token
      → waits s token waker ≡ true
      → has token events ≡ true
      → has waker (handle_events s events).0 ≡ true
  unfolding handle_events waits handle_event
  handle_events_wakes s [] token waker h w e = absurd (ground (arith, has-nil token))
  handle_events_wakes s (first ∷ events) token waker h w e = ground (
    arith,
    handle_events_wakes (handle_event s first).1 events token waker h,
    get-handle_event s first token,
    has-cons token first events,
    has-append waker (handle_event s first).0 (handle_events (handle_event s first).1 events).0,
  )

  -- Nobody else is woken: each waker that the events wake was the waiter of a token among them that
  -- is not the interruptor's.
  pub handle_events_sound :
      (s : S) (events : List ℕ) (waker : ℕ)
      → has waker (handle_events s events).0 ≡ true
      → (token : ℕ) × (token ≢ interrupt_token)
        × (has token events ≡ true)
        × (waits s token waker ≡ true)
  unfolding handle_events waits handle_event
  handle_events_sound s [] waker h = absurd (ground (arith, has-nil waker))
  handle_events_sound s (first ∷ events) waker h =
      elim (Bool-cases (has waker (handle_event s first).0)) [
        | inl p ↦ (
          first,
          ground (arith, has-nil waker),
          ground (arith, has-cons first first events),
          ground (arith, has-nil waker),
        )
        | inr p ↦
            let (token, a, b, c) = handle_events_sound (handle_event s first).1 events waker (
              ground (
                arith,
                has-append waker (handle_event s first).0
                    (handle_events (handle_event s first).1 events).0,
              )) in
            (
              token,
              a,
              ground (arith, has-cons token first events),
              ground (arith, get-handle_event s first token, has-nil waker),
            )
      ]
