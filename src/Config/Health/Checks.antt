-- ===== src/Config/Health/Checks.antt =====
-- health.py: the seven checks of an inspection.
use technocore_safe_agent.Base.{
  String, Bool, true, false, ◌&&◌, not, Option, none, some, ◌==◌, string_eq, any, if◌then◌else◌,
  Result, ok, err, health_error, audit_error, delivery_error, os_error,
}
use technocore_safe_agent.Crypto.Library.{Primitives}
use technocore_safe_agent.State.Store
use technocore_safe_agent.Exec.{Exec, pure, raise, lift, try_except, require, ◌>>=◌, ◌>>◌}
use technocore_safe_agent.Delivery.{DeliveryRecord, status_text, verify_for_room}
use technocore_safe_agent.Delivery.Journal
use technocore_safe_agent.Audit.Log
use technocore_safe_agent.Capabilities.{CapabilityGrant}
use technocore_safe_agent.Capabilities.Limiter
use technocore_safe_agent.Config.{IdentityRecord, AgentConfig, load_identity, load_config}
use technocore_safe_agent.Config.Health.{
  Disk, Looks, Opening, unopened, opened, Flock, taken, blocked, unavailable, Checked, path_present,
  require_private_regular, caught, clean, problem, is_health_error, is_identity_error,
  is_config_error, is_state_error, is_capability_error, is_delivery_error, is_audit_error,
  judge_state,
}

-- The lock's state, where its file is present: `flock` is released before the return.
abbrev pub released : Bool → Result String
released true = ok "stopped"
released false = err os_error

abbrev pub flock_status : Flock → Result String
flock_status (taken is_released) = released is_released
flock_status blocked = ok "running"
flock_status unavailable = err health_error

abbrev pub opening_status : Opening → Exec String
opening_status unopened = raise health_error
opening_status (opened metadata flock) = do
  lift (require_private_regular metadata)
  lift (flock_status flock)

-- `_process_lock_status`
unfoldable pub process_lock_status : Disk → Exec String
unfolding path_present require_private_regular ◌>>=◌
process_lock_status disk = do
  present ← lift (path_present disk.lock)
  if not present then pure "stopped" else opening_status disk.lock_opening

abbrev pub is_enabled : String × CapabilityGrant → Bool
is_enabled (_, grant) = grant.enabled

-- What `_delivery_check` does with a loaded record, and what it does without one.
abbrev pub is_own : Option IdentityRecord → String → Bool
is_own none did = false
is_own (some identity) did = did == identity.did

abbrev pub is_issuer : Option IdentityRecord → Option String → Bool
is_issuer none issuer = false
is_issuer (some identity) none = true
is_issuer (some identity) (some issuer) = issuer == identity.did

-- Each check stands behind `_path_present`, and `_require_private_regular_file`.
abbrev pub look : {A : Type 0} → Looks → Exec A → Exec A → Exec A
look looks if_missing if_present = do
  present ← lift (path_present looks.first)
  if not present then if_missing else (lift (require_private_regular looks.second) >> if_present)

-- config.did != identity.did or config.fingerprint != identity.fingerprint, or no identity
abbrev pub is_bound : AgentConfig → Option IdentityRecord → Bool
is_bound config none = false
is_bound config (some identity) =
    config.did == identity.did && config.fingerprint == identity.fingerprint

unfoldable pub judge_config :
    AgentConfig → Option IdentityRecord → Exec (Checked (Option AgentConfig))
judge_config config identity =
    if not (config.status == "active")
    then problem config.status "config_not_active" none
    else if not (is_bound config identity)
    then problem "identity_mismatch" "config_identity_mismatch" none
    else clean "active" (some config)

module _ (p : Primitives) (disk : Disk) where
  -- `_identity_check`
  unfoldable pub identity_check : Exec (Checked (Option IdentityRecord))
  unfolding ◌>>=◌
  identity_check =
      try_except (do identity ← lift (load_identity p disk.identity); clean "valid" (some identity))
        (λ error. caught (is_identity_error error) "identity_invalid" none error)

  -- `_config_check`
  unfoldable pub config_check : Option IdentityRecord → Exec (Checked (Option AgentConfig))
  unfolding ◌>>=◌ path_present require_private_regular judge_config
  config_check identity =
      try_except
        (look disk.config_looks (problem "missing" "config_missing" none)
          (do config ← lift (load_config p disk.config); judge_config config identity))
        (λ error. caught (is_config_error error) "config_invalid" none error)

  -- `_state_check`
  unfoldable pub state_check : Option AgentConfig → Exec (Checked (Unit {0}))
  unfolding ◌>>=◌ path_present require_private_regular judge_state Store.load
  state_check config =
      try_except
        (look disk.state_looks (problem "missing" "state_missing" tt)
          (do state ← Store.load; judge_state state config))
        (λ error. caught (is_state_error error) "state_invalid" tt error)

  -- `_capability_check`
  unfoldable pub capability_check : Exec (Checked (Unit {0}))
  unfolding ◌>>=◌ Limiter.load
  capability_check =
      try_except
        (do
          policy ← Limiter.load p
          clean (if any is_enabled policy.principals then "valid" else "valid_no_enabled_grants")
              tt)
        (λ error. caught (is_capability_error error) "capability_policy_invalid" tt error)

  unfoldable pub judge_delivery :
      Option IdentityRecord
      → Option AgentConfig
      → Option DeliveryRecord
      → Exec (Checked (Option DeliveryRecord))
  unfolding ◌>>=◌
  judge_delivery identity config none = clean "clear" none
  judge_delivery identity none (some r) = raise delivery_error
  judge_delivery identity (some config) (some r) = do
    require (is_own identity r.did) delivery_error
    lift (verify_for_room p config.room r)
    clean (status_text r.status) (some r)

  -- `_delivery_check`
  unfoldable pub delivery_check :
      Option IdentityRecord → Option AgentConfig → Exec (Checked (Option DeliveryRecord))
  unfolding ◌>>=◌ path_present require_private_regular judge_delivery Journal.load
  delivery_check identity config =
      try_except
        (look disk.journal_looks (clean "clear" none)
          (do loaded ← Journal.load p; judge_delivery identity config loaded))
        (λ error. caught (is_delivery_error error) "delivery_invalid" none error)

  abbrev pub missing_audit : Option String → Exec (Checked (Unit {0}))
  missing_audit none = clean "not_created" tt
  missing_audit (some _) = problem "missing" "audit_missing" tt

  abbrev pub audit_entry : Option String → String
  audit_entry none = "valid"
  audit_entry (some _) = "valid_checkpoint"

  -- `_audit_check`
  unfoldable pub audit_check : Option IdentityRecord → Option String → Exec (Checked (Unit {0}))
  unfolding ◌>>=◌ path_present require_private_regular Log.verify
  audit_check identity expected_head =
      try_except
        (look disk.audit_looks (missing_audit expected_head) (do
          summary ← Log.verify p expected_head
          require (is_issuer identity summary.issuer) audit_error
          clean (audit_entry expected_head) tt))
        (λ error. caught (is_audit_error error) "audit_invalid" tt error)

  -- `_process_check`; the value is the status again.
  unfoldable pub process_check : Exec (Checked String)
  unfolding ◌>>=◌ process_lock_status
  process_check =
      try_except (do status ← process_lock_status disk; clean status status)
        (λ error. caught (is_health_error error) "process_lock_invalid" "invalid" error)
