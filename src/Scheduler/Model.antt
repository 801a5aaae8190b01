-- ===== src/Scheduler/Model.antt =====
-- internal/scheduler/decompose.go, assign.go and score/score.go: the records that the task manager
-- keeps. A `float64` is only stored and copied, and stands as its bit pattern; so does an `int`
-- that no code modelled here computes with.
use m_aistr.Prelude.{ℕ, String, Bool, List}

pub record Subtask : Type 0 where
  pub id : String
  pub description : String
  pub role : String
  pub task_type : String
  pub tags : List String
  pub depends_on : List String
  pub expected_output : String
  pub output_format : String
  pub required_fields : List String
  pub max_retries : ℕ
  pub required_capabilities : List String
  pub preferred_capabilities : List String
  pub min_model_size_gb : ℕ
  pub preferred_model : String
  pub routing_preference : String
  pub synthesis : Bool

pub record ScoreFactors : Type 0 where
  pub model_match : ℕ
  pub hardware : ℕ
  pub active_tasks : ℕ
  pub queued_tasks : ℕ
  pub pending_dependents : ℕ
  pub capacity_penalty : ℕ
  pub load_penalty : ℕ
  pub gpu_compatibility_score : ℕ
  pub gpu_utilization_penalty : ℕ
  pub npu_utilization_penalty : ℕ
  pub cpu_utilization_penalty : ℕ
  pub memory_usage_penalty : ℕ
  pub capability_score : ℕ
  pub matched_capabilities : List String
  pub model_quality_score : ℕ
  pub topology_score : ℕ
  pub estimated_completion_seconds : ℕ
  pub estimated_tokens_per_second : ℕ
  pub model_size_gb : ℕ
  pub latency_score : ℕ
  pub learned_bias : ℕ
  pub telemetry_fresh : Bool
  pub telemetry_age_ms : ℕ

pub record Assignment : Type 0 where
  pub subtask : Subtask
  pub node_id : String
  pub address : String
  pub model : String
  pub engine : String
  pub score : ℕ
  pub factors : ScoreFactors
