-- ===== src/Config/Health/Ready.antt =====
-- What exit code 0 of an inspection guarantees.
use technocore_safe_agent.Base.{
  String, Bool, true, false, not, Option, none, some, [], ◌==◌, string_eq, ◌≡◌, ◌⊎◌, inl, inr, refl,
  arith, str_eq_iff, Error, ok, delivery_error,
}
use technocore_safe_agent.Crypto.Library.{Primitives}
use technocore_safe_agent.Config.{IdentityRecord, AgentConfig, load_identity, load_config}
use technocore_safe_agent.Exec.Triple.{Pred, Triple, bind, weaken, Keeps-lift, Triple-if}
use technocore_safe_agent.Exec.Returns.{
  Returns, Returns-any, Returns-pure, Returns-raise, Returns-lift, Returns-bind, Returns-if,
  Returns-try_except,
}
use technocore_safe_agent.Exec.{Exec, lift, require}
use technocore_safe_agent.Delivery.Journal
use technocore_safe_agent.Delivery.{DeliveryRecord, status_text, verify_for_room}
use technocore_safe_agent.Config.Health.{
  Disk, Looks, Checked, clean, Opening, unopened, opened, Flock, taken, blocked, unavailable,
  caught, path_present, require_private_regular, is_identity_error, is_config_error,
  is_health_error, is_delivery_error,
}
use technocore_safe_agent.Config.Health.Checks.{
  look, is_own, is_bound, judge_config, identity_check, config_check, process_check,
  process_lock_status, opening_status, flock_status, judge_delivery, delivery_check,
}

-- A fact that an entry without a problem guarantees.
abbrev pub Clean : {A : Type 0} → (A → Type 0) → Checked A → Type 0
Clean F c = c.problems ≡ [] → F c.value

Returns-caught :
    {A : Type 0} (F : A → Type 0) (is_caught : Bool) (problem : String) (value : A) (e : Error)
    → Returns (caught is_caught problem value e) (Clean F)
Returns-caught F true problem value e = Returns-pure _ (λ h. cc)
Returns-caught F false problem value e = Returns-raise e

pub Triple-look :
    {A : Type 0} {P : Pred} {Q : A → Pred} (looks : Looks) {m n : Exec A}
    → Triple P m Q (λ _. P)
    → Triple P n Q (λ _. P)
    → Triple P (look looks m n) Q (λ _. P)
Triple-look {P} looks h k =
    bind (λ _. P) (Keeps-lift (path_present looks.first))
      λ present.
        Triple-if (not present) h
          (bind (λ _. P) (Keeps-lift (require_private_regular looks.second)) λ _. k)

module _ (p : Primitives) (disk : Disk) where
  abbrev pub IdentityLoaded : Option IdentityRecord → Type 0
  IdentityLoaded found =
      (identity : IdentityRecord) × (found ≡ some identity)
      × (load_identity p disk.identity ≡ ok identity)

  pub identity_check-Clean : Returns (identity_check p disk) (Clean IdentityLoaded)
  unfolding identity_check
  identity_check-Clean =
      Returns-try_except
        (Returns-bind (λ identity. load_identity p disk.identity ≡ ok identity) (Returns-lift _)
          λ identity e. Returns-pure _ (λ _. (identity, refl, e)))
        (λ e. Returns-caught IdentityLoaded (is_identity_error e) "identity_invalid" none e)

  -- An active configuration of this identity.
  abbrev pub ConfigLoaded : Option IdentityRecord → Option AgentConfig → Type 0
  ConfigLoaded identity found =
      (config : AgentConfig) × (found ≡ some config)
      × (load_config p disk.config ≡ ok config)
      × (config.status ≡ "active")
      × (is_bound config identity ≡ true)

  judge_config-Clean :
      (config : AgentConfig) (identity : Option IdentityRecord)
      → load_config p disk.config ≡ ok config
      → Returns (judge_config config identity) (Clean (ConfigLoaded identity))
  unfolding judge_config
  judge_config-Clean config identity e =
      Returns-if (not (config.status == "active")) (λ _. Returns-pure _ (λ h. cc))
        (λ active.
          Returns-if (not (is_bound config identity)) (λ _. Returns-pure _ (λ h. cc))
            (λ bound. Returns-pure _ (λ _.
              (config, refl, e, ground (arith, str_eq_iff config.status "active"), ground arith))))

  pub config_check-Clean :
      (identity : Option IdentityRecord)
      → Returns (config_check p disk identity) (Clean (ConfigLoaded identity))
  unfolding config_check
  config_check-Clean identity =
      Returns-try_except
        (Triple-look disk.config_looks (Returns-pure _ (λ h. cc)) (
          Returns-bind (λ config. load_config p disk.config ≡ ok config) (Returns-lift _)
            λ config e. judge_config-Clean config identity e))
        (λ e. Returns-caught (ConfigLoaded identity) (is_config_error e) "config_invalid" none e)

  -- Without a problem there is a delivery in the journal, or the entry is "clear".
  abbrev pub ClearOr : Checked (Option DeliveryRecord) → Type 0
  ClearOr c = c.problems ≡ [] → c.value ≡ none → c.entry ≡ "clear"

  judge_delivery-ClearOr :
      (identity : Option IdentityRecord) (config : Option AgentConfig)
      (loaded : Option DeliveryRecord)
      → Returns (judge_delivery p disk identity config loaded) ClearOr
  unfolding judge_delivery
  judge_delivery-ClearOr identity config none = Returns-pure _ (λ _ _. refl)
  judge_delivery-ClearOr identity none (some r) = Returns-raise delivery_error
  judge_delivery-ClearOr identity (some config) (some r) =
      Returns-bind (λ _. Unit) (Returns-any (require (is_own identity r.did) delivery_error))
        λ _ _.
          Returns-bind (λ _. Unit) (Returns-any (lift (verify_for_room p config.room r)))
            λ _ _. has_value (status_text r.status) r
    where
      has_value : (entry : String) (r : DeliveryRecord) → Returns (clean entry (some r)) ClearOr
      has_value entry r = Returns-pure _ (λ _ h. cc)

  pub delivery_check-ClearOr :
      (identity : Option IdentityRecord) (config : Option AgentConfig)
      → Returns (delivery_check p disk identity config) ClearOr
  unfolding delivery_check
  delivery_check-ClearOr identity config =
      Returns-try_except
        (Triple-look disk.journal_looks (Returns-pure _ (λ _ _. refl)) (
          Returns-bind (λ _. Unit) (Returns-any (Journal.load p))
            λ loaded _. judge_delivery-ClearOr identity config loaded))
        (λ e. caught_ClearOr (is_delivery_error e) e)
    where
      caught_ClearOr :
          (is_caught : Bool) (e : Error)
          → Returns (caught is_caught "delivery_invalid" none e) ClearOr
      caught_ClearOr true e = Returns-pure _ (λ h. cc)
      caught_ClearOr false e = Returns-raise e

  abbrev pub Known : String → Type 0
  Known status = (status ≡ "stopped") ⊎ (status ≡ "running")

  flock_status-Known :
      (flock : Flock) {status : String} → flock_status flock ≡ ok status → Known status
  flock_status-Known (taken true) h = inl (ground arith)
  flock_status-Known (taken false) h = ground arith
  flock_status-Known blocked h = inr (ground arith)
  flock_status-Known unavailable h = ground arith

  opening_status-Known : (opening : Opening) → Returns (opening_status opening) Known
  opening_status-Known unopened = Returns-raise _
  opening_status-Known (opened metadata flock) =
      Returns-bind (λ _. Unit) (Returns-any (lift (require_private_regular metadata)))
        λ _ _.
          weaken (Returns-lift (flock_status flock)) (λ _ h. h)
            (λ _ _ e. flock_status-Known flock e) (λ _ _ h. h)

  process_lock_status-Known : Returns (process_lock_status disk) Known
  unfolding process_lock_status
  process_lock_status-Known =
      Returns-bind (λ _. Unit) (Returns-any (lift (path_present disk.lock)))
        λ present _.
          Returns-if (not present) (λ _. Returns-pure "stopped" (inl refl))
            (λ _. opening_status-Known disk.lock_opening)

  pub process_check-Known : Returns (process_check p disk) (Clean Known)
  unfolding process_check
  process_check-Known =
      Returns-try_except
        (Returns-bind Known process_lock_status-Known λ status known.
          Returns-pure (record { entry = status; problems = []; value = status }) (λ _. known))
        (λ e. Returns-caught Known (is_health_error e) "process_lock_invalid" "invalid" e)
