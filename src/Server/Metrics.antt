-- ===== src/Server/Metrics.antt =====
-- server/metrics.go: the counters of the workers, 64-bit integers that wrap around. A nil pointer is
-- `none`, for which nothing is recorded.
use go_task_engine.Prelude.{Option, none, some}
use go_task_engine.Prelude.Int.{ℤ, pos, ◌+ℤ◌, wrap_int64}

pub record Metrics : Type 0 where
  pub processed : ℤ
  pub failed : ℤ
  pub retried : ℤ
  pub archived : ℤ
  pub duration_nanos : ℤ

-- MetricsSnapshot and NewMetrics, all zero.
abbrev pub new_metrics : Metrics
new_metrics = record {
  processed = pos 0;
  failed = pos 0;
  retried = pos 0;
  archived = pos 0;
  duration_nanos = pos 0;
}

abbrev more : ℤ → ℤ
more n = wrap_int64 (n +ℤ pos 1)

unfoldable pub record_processed : Option Metrics → Option Metrics
record_processed none = none
record_processed (some m) = some (record m { processed = more m.processed })

unfoldable pub record_failed : Option Metrics → Option Metrics
record_failed none = none
record_failed (some m) = some (record m { failed = more m.failed })

unfoldable pub record_retried : Option Metrics → Option Metrics
record_retried none = none
record_retried (some m) = some (record m { retried = more m.retried })

unfoldable pub record_archived : Option Metrics → Option Metrics
record_archived none = none
record_archived (some m) = some (record m { archived = more m.archived })

unfoldable pub record_duration : ℤ → Option Metrics → Option Metrics
record_duration d none = none
record_duration d (some m) = some (record m { duration_nanos = wrap_int64 (m.duration_nanos +ℤ d) })

-- Snapshot; the snapshot of a nil pointer is all zero.
unfoldable pub snapshot : Option Metrics → Metrics
snapshot none = new_metrics
snapshot (some m) = m
