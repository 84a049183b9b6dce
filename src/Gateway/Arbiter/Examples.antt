-- ===== src/Gateway/Arbiter/Examples.antt =====
-- The arbiter with a remote and a local source.
use orange_pi_stm32_for_rov.Prelude.{ℕ, true, false, ◌≡◌, refl, some, List, [], ◌∷◌}
use orange_pi_stm32_for_rov.Gateway.Arbiter.Types.{
  WireIntent, WireOps, SourceId, remote, local, IntentSample, SourcePolicy, ArbiterPolicy,
  set_sources, insert_source, comes_before,
}
use orange_pi_stm32_for_rov.Gateway.Arbiter.Decide.{
  Candidate, candidate, find_sample, pick, no_winner, decide,
}

-- The rest of the message is a number here.
abbrev plain : WireIntent ℕ
plain = record {
  stamp_ns = 5_000_000_000;
  ttl_ms = 500;
  estop = 0;
  clear_estop = 0;
  request_exit = 0;
  has_estop_cmd = false;
  has_exit_request = false;
  source_id = 0;
  source_prio = 0;
  rest = 7;
}

abbrev ops : WireOps ℕ
ops = record {
  default_intent = record plain { stamp_ns = 0; ttl_ms = 0; rest = 0 };
  clear_payload = λ it. record it { estop = 0; clear_estop = 0; rest = 0 };
  source_unknown = 255;
}

abbrev policy : ArbiterPolicy
policy = record {
  require_initialized = false;
  enable_payload_ttl = true;
  stamp0_is_expired = true;
  estop_priority = true;
  publish_when_no_fresh = true;
  hold_last_good_on_degrade = true;
  clear_payload_on_degrade = true;
}

abbrev remote_source : SourcePolicy
remote_source = record {
  src = remote;
  priority = 10;
  max_age_ms = 250;
  warmup_ms = 1500;
  default_ttl_ms = 0;
  allow_stale = true;
  enable = true;
}

abbrev local_source : SourcePolicy
local_source = record remote_source { src = local; priority = 0 }

abbrev sources : List SourcePolicy
sources = remote_source ∷ local_source ∷ []

abbrev sample : SourceId → WireIntent ℕ → IntentSample ℕ
sample src it = record {
  src = src;
  intent = some it;
  pub_mono_ns = 5_000_000_000;
  pub_wall_ns = 0;
  recv_mono_ns = 0;
  subscriber_initialized = true;
}

-- The remote source presses the emergency stop, the local one steers.
abbrev pressed : WireIntent ℕ
pressed = record plain { estop = 1; has_estop_cmd = true }

abbrev samples : List (IntentSample ℕ)
samples = sample remote pressed ∷ sample local plain ∷ []

abbrev steering : List (IntentSample ℕ)
steering = sample remote plain ∷ sample local plain ∷ []

abbrev now : ℕ
now = 5_100_000_000

abbrev remote_candidate : WireIntent ℕ → Candidate ℕ
remote_candidate it = record { sp = remote_source; smp = sample remote it; it = it }

nobody_wins : (decide ops policy now 0 (set_sources sources) [] (some plain)).has_winner ≡ false
unfolding decide set_sources insert_source comes_before candidate find_sample pick no_winner
nobody_wins = refl
