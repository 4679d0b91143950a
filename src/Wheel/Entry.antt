-- ===== src/Wheel/Entry.antt =====
-- `TimerHandle` and `TimerEntry` of vibeio/src/timer.rs.
use vibeio.Prelude.{ℕ}

pub record TimerHandle : Type 0 where
  pub slab_index : ℕ
  pub generation : ℕ

pub record TimerEntry : Type 0 where
  pub waker : ℕ
  pub expiration_tick : ℕ
  pub generation : ℕ
  pub level : ℕ
  pub slot : ℕ
