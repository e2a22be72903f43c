-- ===== src/Config/Health/Exit.antt =====
-- What exit code 0 of an inspection guarantees: the whole report.
use technocore_safe_agent.Base.{
  ℕ, String, Bool, not, Option, some, [], string_eq, ◌≡◌, ◌⊎◌, ok, if◌then◌else◌,
}
use technocore_safe_agent.Base.Dict.{lookup}
use technocore_safe_agent.Crypto.Library.{Primitives}
use technocore_safe_agent.State.{AgentState}
use technocore_safe_agent.World.{World, File}
use technocore_safe_agent.Delivery.{DeliveryRecord}
use technocore_safe_agent.Config.{IdentityRecord, AgentConfig, load_identity, load_config}
use technocore_safe_agent.Config.Health.{Disk, HealthReport, Checked}
use technocore_safe_agent.Config.Health.Ready.{Clean, IdentityLoaded, ConfigLoaded, ClearOr, Known}
use technocore_safe_agent.Config.Health.Current.{StateLoaded, UpToDate, Current}
use technocore_safe_agent.Config.Health.Report.{report_of}

abbrev verdict_of : Bool → Bool → Bool → String × ℕ
verdict_of none_other recovers runs =
    if not none_other
    then ("unhealthy", 2)
    else if recovers
    then ("recovery_required", 3)
    else if runs
    then ("running", 0)
    else ("ready", 0)

-- A healthy instance.
pub record Ready (p : Primitives) (disk : Disk) (file : Option File) (report : HealthReport)
    : Type 0 where
  pub no_problems : report.problems ≡ []
  pub identity : IdentityRecord
  pub config : AgentConfig
  pub state : AgentState
  pub identity_loaded : load_identity p disk.identity ≡ ok identity
  pub config_loaded : load_config p disk.config ≡ ok config
  pub active : config.status ≡ "active"
  pub same_did : config.did ≡ identity.did
  pub same_fingerprint : config.fingerprint ≡ identity.fingerprint
  pub state_loaded : StateLoaded file state
  pub up_to_date : UpToDate state config
  pub status :
      (report.status ≡ "running")
      ⊎ ((report.status ≡ "ready") × (lookup "delivery" report.checks ≡ some "clear"))

-- What the seven checks have found, where each is as good as it can be.
record Found (p : Primitives) (disk : Disk) (file : Option File)
    (identity : Checked (Option IdentityRecord)) (config : Checked (Option AgentConfig))
    (state : Checked (Unit {0})) (delivery : Checked (Option DeliveryRecord))
    (process : Checked String) : Type 0 where
  of_identity : Clean (IdentityLoaded p disk) identity
  of_config : Clean (ConfigLoaded p disk identity.value) config
  of_state : Current file config.value state
  of_delivery : ClearOr p disk delivery
  of_process : Clean (Known p disk) process

module _ (p : Primitives) (disk : Disk) (file : Option File) (expect_running : Bool)
    (identity : Checked (Option IdentityRecord)) (config : Checked (Option AgentConfig))
    (state capability : Checked (Unit {0})) (delivery : Checked (Option DeliveryRecord))
    (audit : Checked (Unit {0})) (process : Checked String) where
  abbrev report : HealthReport
  report = report_of expect_running identity config state capability delivery audit process
