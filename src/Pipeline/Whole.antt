-- ===== src/Pipeline/Whole.antt =====
-- A whole pipeline: the two halves that `startPipeline` starts, and what it logs once both are done.
-- The languages of a half are arguments of its translator, and stand with Flow.
use talk_go.Prelude.{Text, nat_eq, text_eq, ℕ}
use talk_go.Service.State.{Pipeline}
use talk_go.Pipeline.{HalfPorts, PipelineHalf, run_half}

unfoldable pub half_a_to_b : Pipeline → PipelineHalf
half_a_to_b p = record {
  source_sess_id = p.sess_a;
  target_sess_id = p.sess_b;
  total_chunks = 0;
  error_chunks = 0;
}

unfoldable pub half_b_to_a : Pipeline → PipelineHalf
half_b_to_a p = record {
  source_sess_id = p.sess_b;
  target_sess_id = p.sess_a;
  total_chunks = 0;
  error_chunks = 0;
}

-- What is logged as `pipeline_stop`.
pub record Stop : Type 0 where
  pub room_id : Text
  pub total_chunks_a_to_b : ℕ
  pub total_chunks_b_to_a : ℕ

-- Each half counts for itself, so that their interleaving does not matter to the log.
unfoldable pub run_pipeline : HalfPorts → HalfPorts → Pipeline → Stop
run_pipeline ports_a ports_b p = record {
  room_id = p.room_id;
  total_chunks_a_to_b = (run_half ports_a (half_a_to_b p)).half.total_chunks;
  total_chunks_b_to_a = (run_half ports_b (half_b_to_a p)).half.total_chunks;
}
