-- ===== src/Timer.antt =====
-- `Timer` of vibeio/src/timer.rs: the wheel, and the instant to which its tick belongs. An instant
-- is its number of nanoseconds, and the clock is an argument of each call. What a call wakes is a
-- list of wakers among its results.
pub mod Pace
pub mod Deadline
mod Tests
use vibeio.Prelude.{
  ℕ, ◌+◌, ◌-◌, ◌*◌, ◌/◌, ◌%◌, ◌^◌, Bool, true, false, Option, none, some, List, [], ◌∷◌, ◌++◌, max,
  ltb, if◌then◌else◌, add64, sat_sub,
}
use mathlib.Core.Option
use vibeio.Slab.{Slab}
use vibeio.Wheel.{TimingWheel, TimerEntry, TimerHandle}
use vibeio.Wheel

pub record Timer (S : Type 0) : Type 0 where
  pub wheel : TimingWheel S
  pub instant : ℕ

abbrev pub nanos_per_milli : ℕ
nanos_per_milli = 10 ^ 6

-- `a.saturating_duration_since(b).as_millis() as u64`.
abbrev pub millis_since : ℕ → ℕ → ℕ
millis_since a b = sat_sub a b / nanos_per_milli % 2 ^ 64

abbrev pub is_empty_list : List ℕ → Bool
is_empty_list [] = true
is_empty_list (x ∷ xs) = false

pub record Spin (S : Type 0) : Type 0 where
  pub timer : Timer S
  pub deadline : Option ℕ
  pub woken_up : Bool
  pub woken : List ℕ

module _ {S : Type 0} ⦃slab : Slab S TimerEntry⦄ where
  unfoldable pub new : ℕ → Timer S
  new now = record { wheel = Wheel.new; instant = now }

  -- The handle, the wakers that are woken, and the timer.
  unfoldable pub submit : Timer S → ℕ → ℕ → Option TimerHandle × List ℕ × Timer S
  submit t deadline waker =
      let millis = millis_since deadline t.instant in
      if ltb millis 1
      then (none, waker ∷ [], t)
      else (let (handle, wheel) = Wheel.insert t.wheel waker (add64 t.wheel.current_tick millis) in
          (some handle, [], record t { wheel = wheel }))

  pub cancel : Timer S → TimerHandle → Timer S
  cancel t handle = record t { wheel = Wheel.remove t.wheel handle }

  -- The deadline is in milliseconds.
  pub spin_and_get_deadline : Timer S → ℕ → Spin S
  spin_and_get_deadline t now =
      if Wheel.is_empty t.wheel
      then record {
        timer = record t { instant = now };
        deadline = none;
        woken_up = false;
        woken = [];
      }
      else (let (woken, advanced) = Wheel.advance t.wheel (millis_since now t.instant) in
          let (nearest, wheel) = Wheel.nearest_wakeup advanced in
          record {
            timer = record { wheel = wheel; instant = now };
            deadline = Option.map (λ tick. max (sat_sub tick advanced.current_tick) 1) nearest;
            woken_up = if is_empty_list woken then false else true;
            woken = woken;
          })

  -- Spins at the given instants. The wakers that are woken, and the timer.
  pub spins : Timer S → List ℕ → List ℕ × Timer S
  spins t [] = ([], t)
  spins t (now ∷ rest) =
      let spun = spin_and_get_deadline t now in
      let (woken, t') = spins spun.timer rest in (spun.woken ++ woken, t')
