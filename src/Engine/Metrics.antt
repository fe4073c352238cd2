-- ===== src/Engine/Metrics.antt =====
-- The engine's counters (backend/services/workflow-command/internal/application/
-- engine_metrics.go). Each is an atomic 64-bit integer; they stay far below 2^63.
use flow_go.Prelude.{ℕ, ◌+◌}
use flow_go.Prelude.Int.{ℤ, pos_part}

pub record EngineMetrics : Type 0 where
  pub outbox_publish_success : ℕ
  pub outbox_publish_failure : ℕ
  pub outbox_pending : ℕ
  pub outbox_publish_lag_sec : ℕ
  pub idempotency_hit : ℕ
  pub idempotency_miss : ℕ

abbrev pub new_engine_metrics : EngineMetrics
new_engine_metrics = record {
  outbox_publish_success = 0;
  outbox_publish_failure = 0;
  outbox_pending = 0;
  outbox_publish_lag_sec = 0;
  idempotency_hit = 0;
  idempotency_miss = 0;
}

unfoldable pub inc_outbox_publish_success : EngineMetrics → EngineMetrics
inc_outbox_publish_success m = record m { outbox_publish_success = m.outbox_publish_success + 1 }

unfoldable pub inc_outbox_publish_failure : EngineMetrics → EngineMetrics
inc_outbox_publish_failure m = record m { outbox_publish_failure = m.outbox_publish_failure + 1 }

-- A negative number is stored as 0.
unfoldable pub set_outbox_pending : ℤ → EngineMetrics → EngineMetrics
set_outbox_pending n m = record m { outbox_pending = pos_part n }

unfoldable pub set_outbox_publish_lag_sec : ℤ → EngineMetrics → EngineMetrics
set_outbox_publish_lag_sec n m = record m { outbox_publish_lag_sec = pos_part n }

unfoldable pub inc_idempotency_hit : EngineMetrics → EngineMetrics
inc_idempotency_hit m = record m { idempotency_hit = m.idempotency_hit + 1 }

unfoldable pub inc_idempotency_miss : EngineMetrics → EngineMetrics
inc_idempotency_miss m = record m { idempotency_miss = m.idempotency_miss + 1 }
