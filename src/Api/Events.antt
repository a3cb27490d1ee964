-- ===== src/Api/Events.antt =====
-- ProgressEvent of pkg/api/types.go: what the listeners of a project are sent.
use existora2pg.Prelude.{ℕ, Text, Option}

-- The states that the log of a migration gives to an event.
pub data EventState : Type 0 where
  running : EventState
  completed : EventState
  failed : EventState
  stats : EventState

-- A percentage is a float64 in Go, here the two numbers whose quotient, times 100, it is. The waits
-- for connections and commits, which are passed on only, are left out.
pub record ProgressEvent : Type 0 where
  pub table : Text
  pub partition : Text
  pub rows : ℕ
  pub speed : ℕ
  pub percent : Option (ℕ × ℕ)
  pub state : EventState
  pub duration_ms : ℕ
  pub read_time_ms : ℕ
  pub write_time_ms : ℕ
  pub read_pct : ℕ
  pub write_pct : ℕ
  pub batches : ℕ
  pub avg_batch_ms : ℕ
