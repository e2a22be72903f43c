-- ===== src/Config/Health/Report.antt =====
-- `inspect_operational_health`: the checks in their order, and what their problems come to.
use technocore_safe_agent.Base.{
  ℕ, String, Bool, true, false, ◌&&◌, not, Option, none, some, List, [], ◌∷◌, ◌++◌, ◌==◌, string_eq,
  contains, keep_if, if◌then◌else◌,
}
use technocore_safe_agent.Crypto.Library.{Primitives}
use technocore_safe_agent.Exec.{Exec, pure, ◌>>=◌}
use technocore_safe_agent.Delivery.{DeliveryRecord}
use technocore_safe_agent.Config.{IdentityRecord, AgentConfig}
use technocore_safe_agent.Config.Health.{Checked, Disk, HealthReport, is_empty}
use technocore_safe_agent.Config.Health.Checks.{
  identity_check, config_check, state_check, capability_check, delivery_check, audit_check,
  process_check,
}

abbrev pub recovery_required : String
recovery_required = "delivery_recovery_required"

abbrev pub is_some {ℓ} : {A : Type ℓ} → Option A → Bool
is_some none = false
is_some (some _) = true

-- The problems of the process, after those of the checks.
abbrev pub process_problems : Bool → Bool → String → List String
process_problems expect_running has_delivery process =
    (if expect_running && process == "stopped" then "process_not_running" ∷ [] else [])
    ++ (if has_delivery && process == "stopped" then recovery_required ∷ [] else [])

-- (status, exit_code)
unfoldable pub verdict : List String → String → String × ℕ
verdict problems process =
    if not (is_empty (keep_if (λ problem. not (problem == recovery_required)) problems))
    then ("unhealthy", 2)
    else if contains problems recovery_required
    then ("recovery_required", 3)
    else if process == "running"
    then ("running", 0)
    else ("ready", 0)

unfoldable pub report_of :
    Bool
    → Checked (Option IdentityRecord)
    → Checked (Option AgentConfig)
    → Checked (Unit {0})
    → Checked (Unit {0})
    → Checked (Option DeliveryRecord)
    → Checked (Unit {0})
    → Checked String
    → HealthReport
unfolding verdict
report_of expect_running identity config state capability delivery audit process =
    let problems =
      identity.problems
      ++ config.problems
      ++ state.problems
      ++ capability.problems
      ++ delivery.problems
      ++ audit.problems
      ++ process.problems
      ++ process_problems expect_running (is_some delivery.value) process.value in
    let (status, exit_code) = verdict problems process.value in
    record {
      status = status;
      exit_code = exit_code;
      checks =
          ("identity", identity.entry)
          ∷ ("config", config.entry)
          ∷ ("state", state.entry)
          ∷ ("capability_policy", capability.entry)
          ∷ ("delivery", delivery.entry)
          ∷ ("audit", audit.entry)
          ∷ ("process", process.entry)
          ∷ [];
      problems = problems;
    }

module _ (p : Primitives) (disk : Disk) where
  unfoldable pub inspect_operational_health : Option String → Bool → Exec HealthReport
  unfolding ◌>>=◌ identity_check config_check state_check capability_check delivery_check
      audit_check process_check report_of
  inspect_operational_health expected_audit_head expect_running = do
    identity ← identity_check p disk
    config ← config_check p disk identity.value
    state ← state_check p disk config.value
    capability ← capability_check p disk
    delivery ← delivery_check p disk identity.value config.value
    audit ← audit_check p disk identity.value expected_audit_head
    process ← process_check p disk
    pure (report_of expect_running identity config state capability delivery audit process)
