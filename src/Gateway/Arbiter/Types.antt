-- ===== src/Gateway/Arbiter/Types.antt =====
-- The samples, the policies and the order of the sources.
use orange_pi_stm32_for_rov.Prelude.{
  ℕ, Bool, String, Option, List, [], ◌∷◌, ◌==◌, ltb, leb, if◌then◌else◌,
}

-- shared::msg::ControlIntent as far as the arbiter reads or writes it: two bits of `flags`, and the
-- rest of the message of a type R.
pub record WireIntent (R : Type 0) : Type 0 where
  pub stamp_ns : ℕ
  pub ttl_ms : ℕ
  pub estop : ℕ
  pub clear_estop : ℕ
  pub request_exit : ℕ
  pub has_estop_cmd : Bool
  pub has_exit_request : Bool
  pub source_id : ℕ
  pub source_prio : ℕ
  pub rest : R

-- Its default value, its clear_payload, and the value of IntentSource::kUnknown.
pub record WireOps (R : Type 0) : Type 0 where
  pub default_intent : WireIntent R
  pub clear_payload : WireIntent R → WireIntent R
  pub source_unknown : ℕ

pub data SourceId : Type 0 where
  remote local auto unknown : SourceId

abbrev pub source_value : SourceId → ℕ
source_value remote = 0
source_value local = 1
source_value auto = 2
source_value unknown = 255

pub record IntentSample (R : Type 0) : Type 0 where
  pub src : SourceId
  pub intent : Option (WireIntent R)
  pub pub_mono_ns : ℕ
  pub pub_wall_ns : ℕ
  pub recv_mono_ns : ℕ
  pub subscriber_initialized : Bool

pub record SourcePolicy : Type 0 where
  pub src : SourceId
  pub priority : ℕ  -- an int, plus 2^31
  pub max_age_ms : ℕ
  pub warmup_ms : ℕ
  pub default_ttl_ms : ℕ
  pub allow_stale : Bool
  pub enable : Bool

-- IntentArbiter::Policy.
pub record ArbiterPolicy : Type 0 where
  pub require_initialized : Bool
  pub enable_payload_ttl : Bool
  pub stamp0_is_expired : Bool
  pub estop_priority : Bool
  pub publish_when_no_fresh : Bool
  pub hold_last_good_on_degrade : Bool
  pub clear_payload_on_degrade : Bool

pub record ArbiterDecision (R : Type 0) : Type 0 where
  pub has_winner : Bool
  pub winner : SourceId
  pub winner_sample : Option (IntentSample R)  -- none is the empty sample
  pub degraded : Bool
  pub winner_age_ms : ℕ
  pub reason : String
  pub estop_assert : Bool
  pub estop_clear : Bool
  pub should_publish : Bool
  pub publish_intent : WireIntent R
  pub request_shutdown : Bool

-- The order of set_sources: by priority, then by the value of the source.
unfoldable pub comes_before : SourcePolicy → SourcePolicy → Bool
comes_before a b =
    if a.priority == b.priority
    then leb (source_value a.src) (source_value b.src)
    else ltb a.priority b.priority

unfoldable pub insert_source : SourcePolicy → List SourcePolicy → List SourcePolicy
insert_source a [] = a ∷ []
insert_source a (b ∷ bs) =
    let rest = insert_source a bs in if comes_before a b then a ∷ b ∷ bs else b ∷ rest

-- set_sources; std::sort is insertion here, which orders the same keys.
unfoldable pub set_sources : List SourcePolicy → List SourcePolicy
set_sources [] = []
set_sources (a ∷ rest) = insert_source a (set_sources rest)
