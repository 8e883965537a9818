-- ===== src/HealthProbe/Tests.antt =====
-- Runs of the model of internal/probes/health_probe.c on small inputs.
use sirah_c.Prelude.{◌≡◌, refl, ◌↔◌, Bool, true, false, none, List, [], ◌∷◌, arith, ◌==◌}
use sirah_c.HealthProbe.{
  ProbeType, startup, readiness, liveness, success, timeout, tcp, Network, ProbeConfig,
  ProbeManager, create, fresh_probe, execute, update_result, is_startup_complete, is_ready,
}
use sirah_c.HealthProbe.Hysteresis.{Report, after, IsHealthy, passed_IsHealthy_iff}

abbrev config : ProbeType → ProbeConfig
config t = record {
  type = t;
  handler = tcp (record { port = 8080; host = none });
  initial_delay_seconds = 0;
  timeout_seconds = 1;
  period_seconds = 10;
  success_threshold = 2;
  failure_threshold = 3;
}

abbrev manager : ProbeManager
manager = create "web" "default" "10.244.0.2"

-- Only the port 8080 answers.
abbrev network : Network
network = record {
  opens_socket = true;
  reads_address = λ a. true;
  connects = λ a port t. port == 8080;
}

answers : execute network manager (config liveness) ≡ success
unfolding execute
answers = refl

abbrev says : List Bool → List Report
says [] = []
says (true ∷ bs) = record { result = success; now = 5 } ∷ says bs
says (false ∷ bs) = record { result = timeout; now = 5 } ∷ says bs

passes :
    (after
      (fresh_probe manager (config liveness))
      (says (false ∷ false ∷ true ∷ true ∷ []))).state.passed
    ≡ true
unfolding after fresh_probe update_result
passes = refl

fails :
    (after
      (fresh_probe manager (config liveness))
      (says (false ∷ false ∷ false ∷ true ∷ true ∷ []))).state.passed
    ≡ false
unfolding after fresh_probe update_result
fails = refl

passed_IsHealthy_iff_example :
    ((after
        (fresh_probe manager (config liveness))
        (says (false ∷ false ∷ true ∷ true ∷ []))).state.passed
      ≡ true)
    ↔ IsHealthy 2 3 (says (false ∷ false ∷ true ∷ true ∷ []))
passed_IsHealthy_iff_example =
    passed_IsHealthy_iff manager (config liveness) (says (false ∷ false ∷ true ∷ true ∷ []))
      (omega arith) (omega arith) (omega arith)

abbrev two_probes : ProbeManager
two_probes = record manager {
  probes =
      after (fresh_probe manager (config startup)) (says (true ∷ true ∷ []))
      ∷ fresh_probe manager (config readiness)
      ∷ [];
}

gates : (is_startup_complete two_probes ≡ true) × (is_ready two_probes ≡ false)
unfolding is_startup_complete is_ready after fresh_probe update_result
gates = (refl, refl)
