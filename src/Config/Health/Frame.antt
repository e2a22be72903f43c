-- ===== src/Config/Health/Frame.antt =====
-- An inspection changes nothing.
use technocore_safe_agent.Base.{
  String, Bool, true, false, Option, none, some, ◌≡◌, Error, not, ◌==◌, string_eq, audit_error,
  delivery_error, health_error, state_error, refl,
}
use technocore_safe_agent.Crypto.Library.{Primitives}
use technocore_safe_agent.State.{AgentState}
use technocore_safe_agent.State.Store
use technocore_safe_agent.Delivery.{DeliveryRecord, verify_for_room}
use technocore_safe_agent.Delivery.Durability.{Triple-load}
use technocore_safe_agent.Capabilities.Frame.{Keeps-load}
use technocore_safe_agent.Audit.Frame.{Keeps-if, Keeps-verify}
use technocore_safe_agent.World.{World, File, json_of}
use technocore_safe_agent.Exec.{Exec}
use technocore_safe_agent.Exec.Triple.{
  Pred, Ends, Keeps, weaken, Keeps-bind, Keeps-pure, Keeps-raise, Keeps-lift, Keeps-gets,
  Keeps-try_except, Keeps-require,
}
use technocore_safe_agent.Exec.Frame.{Stable, Stable-view, view, Keeps-os_call, Keeps-os_error_as}
use technocore_safe_agent.Config.{IdentityRecord, AgentConfig, load_identity, load_config}
use technocore_safe_agent.Config.Health.{
  Disk, Looks, Opening, unopened, opened, path_present, require_private_regular, caught,
  is_health_error, is_identity_error, is_config_error, is_state_error, is_capability_error,
  is_delivery_error, is_audit_error, judge_state,
}
use technocore_safe_agent.Config.Health.Checks.{
  look, judge_config, is_bound, opening_status, process_lock_status, flock_status, is_own,
  is_issuer, judge_delivery, missing_audit, identity_check, config_check, state_check,
  capability_check, delivery_check, audit_check, process_check,
}
use technocore_safe_agent.Config.Health.Report.{inspect_operational_health}

module _ {P : Pred} (s : Stable P) where
  Keeps-caught :
      {A : Type 0} (is_caught : Bool) (problem : String) (value : A) (e : Error)
      → Keeps P (caught is_caught problem value e)
  Keeps-caught true problem value e = Keeps-pure _
  Keeps-caught false problem value e = Keeps-raise e

  Keeps-look :
      {A : Type 0} (looks : Looks) {m n : Exec A} → Keeps P m → Keeps P n → Keeps P (look looks m n)
  Keeps-look looks h k = Keeps-bind (Keeps-lift (path_present looks.first)) λ present.
      Keeps-if (not present) h
        (Keeps-bind (Keeps-lift (require_private_regular looks.second)) λ _. k)

  Keeps-load_file : (file : Option File) → Keeps P (Store.load_file file)
  unfolding Store.load_file
  Keeps-load_file none = Keeps-pure _
  Keeps-load_file (some file) =
      Keeps-bind (Keeps-try_except (Keeps-os_call s) (λ e. Keeps-os_error_as state_error e))
        λ _. Keeps-bind (Keeps-lift (json_of state_error file)) λ payload. Keeps-lift _

  pub Keeps-load_state : Keeps P Store.load
  unfolding Store.load
  Keeps-load_state = Keeps-bind (Keeps-gets (λ w. w.state_file)) λ file. Keeps-load_file file

  Keeps-judge_state :
      (state : AgentState) (config : Option AgentConfig) → Keeps P (judge_state state config)
  unfolding judge_state
  Keeps-judge_state state none = Keeps-pure _
  Keeps-judge_state state (some config) = Keeps-pure _

  Keeps-judge_config :
      (config : AgentConfig) (identity : Option IdentityRecord)
      → Keeps P (judge_config config identity)
  unfolding judge_config
  Keeps-judge_config config identity =
      Keeps-if (not (config.status == "active")) (Keeps-pure _)
        (Keeps-if (not (is_bound config identity)) (Keeps-pure _) (Keeps-pure _))

  Keeps-opening_status : (opening : Opening) → Keeps P (opening_status opening)
  Keeps-opening_status unopened = Keeps-raise health_error
  Keeps-opening_status (opened metadata flock) =
      Keeps-bind (Keeps-lift (require_private_regular metadata))
        λ _. Keeps-lift (flock_status flock)

  Keeps-process_lock_status : (disk : Disk) → Keeps P (process_lock_status disk)
  unfolding process_lock_status
  Keeps-process_lock_status disk =
      Keeps-bind (Keeps-lift (path_present disk.lock))
        λ present. Keeps-if (not present) (Keeps-pure _) (Keeps-opening_status disk.lock_opening)

  module _ (p : Primitives) (disk : Disk) where
    Keeps-judge_delivery :
        (identity : Option IdentityRecord) (config : Option AgentConfig)
        (loaded : Option DeliveryRecord)
        → Keeps P (judge_delivery p disk identity config loaded)
    unfolding judge_delivery
    Keeps-judge_delivery identity config none = Keeps-pure _
    Keeps-judge_delivery identity none (some r) = Keeps-raise delivery_error
    Keeps-judge_delivery identity (some config) (some r) =
        Keeps-bind (Keeps-require (is_own identity r.did) delivery_error)
          λ _. Keeps-bind (Keeps-lift (verify_for_room p config.room r)) λ _. Keeps-pure _

    Keeps-missing_audit :
        (expected_head : Option String) → Keeps P (missing_audit p disk expected_head)
    Keeps-missing_audit none = Keeps-pure _
    Keeps-missing_audit (some _) = Keeps-pure _

    pub Keeps-identity_check : Keeps P (identity_check p disk)
    unfolding identity_check
    Keeps-identity_check =
        Keeps-try_except (Keeps-bind (Keeps-lift (load_identity p disk.identity)) λ _. Keeps-pure _)
          (λ e. Keeps-caught (is_identity_error e) _ _ e)

    pub Keeps-config_check :
        (identity : Option IdentityRecord) → Keeps P (config_check p disk identity)
    unfolding config_check
    Keeps-config_check identity =
        Keeps-try_except
          (Keeps-look disk.config_looks (Keeps-pure _) (
            Keeps-bind (Keeps-lift (load_config p disk.config))
              λ config. Keeps-judge_config config identity))
          (λ e. Keeps-caught (is_config_error e) _ _ e)

    pub Keeps-state_check : (config : Option AgentConfig) → Keeps P (state_check p disk config)
    unfolding state_check
    Keeps-state_check config =
        Keeps-try_except
          (Keeps-look disk.state_looks (Keeps-pure _)
            (Keeps-bind Keeps-load_state λ state. Keeps-judge_state state config))
          (λ e. Keeps-caught (is_state_error e) _ _ e)

    pub Keeps-capability_check : Keeps P (capability_check p disk)
    unfolding capability_check
    Keeps-capability_check =
        Keeps-try_except (Keeps-bind (Keeps-load s p) λ policy. Keeps-pure _)
          (λ e. Keeps-caught (is_capability_error e) _ _ e)

    pub Keeps-delivery_check :
        (identity : Option IdentityRecord) (config : Option AgentConfig)
        → Keeps P (delivery_check p disk identity config)
    unfolding delivery_check
    Keeps-delivery_check identity config =
        Keeps-try_except
          (Keeps-look disk.journal_looks (Keeps-pure _) (
            Keeps-bind (weaken (Triple-load s p) (λ w h. h) (λ _ w h. h.0) (λ _ w h. h))
              λ loaded. Keeps-judge_delivery identity config loaded))
          (λ e. Keeps-caught (is_delivery_error e) _ _ e)

    pub Keeps-audit_check :
        (identity : Option IdentityRecord) (expected_head : Option String)
        → Keeps P (audit_check p disk identity expected_head)
    unfolding audit_check
    Keeps-audit_check identity expected_head =
        Keeps-try_except
          (Keeps-look disk.audit_looks (Keeps-missing_audit expected_head) (
            Keeps-bind (Keeps-verify s p expected_head) λ summary.
              Keeps-bind (Keeps-require (is_issuer identity summary.issuer) audit_error)
                λ _. Keeps-pure _))
          (λ e. Keeps-caught (is_audit_error e) _ _ e)

    pub Keeps-process_check : Keeps P (process_check p disk)
    unfolding process_check
    Keeps-process_check =
        Keeps-try_except (Keeps-bind (Keeps-process_lock_status disk) λ status. Keeps-pure _)
          (λ e. Keeps-caught (is_health_error e) _ _ e)

    Keeps-inspect :
        (expected_head : Option String) (expect_running : Bool)
        → Keeps P (inspect_operational_health p disk expected_head expect_running)
    unfolding inspect_operational_health
    Keeps-inspect expected_head expect_running = Keeps-bind Keeps-identity_check λ identity.
        Keeps-bind (Keeps-config_check identity.value) λ config.
          Keeps-bind (Keeps-state_check config.value) λ state.
            Keeps-bind Keeps-capability_check λ capability.
              Keeps-bind (Keeps-delivery_check identity.value config.value) λ delivery.
                Keeps-bind (Keeps-audit_check identity.value expected_head)
                  λ audit. Keeps-bind Keeps-process_check λ process. Keeps-pure _

-- Whatever the files and the faults, an inspection leaves the state, the journal and the audit log
-- as they were, in memory and on disk, and sends nothing.
pub inspect-view :
    (p : Primitives) (disk : Disk) (expected_head : Option String) (expect_running : Bool)
    (w : World)
    → Ends
        (λ _ w'. view w' ≡ view w)
        (λ _ w'. view w' ≡ view w)
        (inspect_operational_health p disk expected_head expect_running w)
inspect-view p disk expected_head expect_running w =
    (Keeps-inspect (Stable-view λ v. v ≡ view w) p disk expected_head expect_running).at w refl
