-- ===== src/Config/Health.antt =====
-- health.py: the state of one instance, from its files, without the key chain and the network.
pub mod Checks
pub mod Report
pub mod Frame
pub mod Ready
pub mod Current
pub mod Exit
use technocore_safe_agent.Base.{
  ℕ, String, Bool, true, false, ◌&&◌, ◌||◌, not, Option, none, some, List, [], ◌∷◌, ◌++◌, ◌==◌,
  nat_eq, string_eq, option_eq, ltb, any, if◌then◌else◌, Error, Result, ok, err, health_error,
  identity_error, config_error, state_error, capability_error, delivery_error, audit_error,
  protocol_value_error, os_error,
}
use technocore_safe_agent.Base.Dict.{Dict, lookup}
use technocore_safe_agent.Crypto.Library.{Primitives}
use technocore_safe_agent.Crypto.Decimal.{parse}
use technocore_safe_agent.State.{AgentState}
use technocore_safe_agent.State.Store
use technocore_safe_agent.World.{World}
use technocore_safe_agent.Exec.{Exec, Done, pure, raise, lift, try_except, require, ◌>>=◌, ◌>>◌}
use technocore_safe_agent.Delivery.{DeliveryRecord, Status, pending, status_text, verify_for_room}
use technocore_safe_agent.Delivery.Journal
use technocore_safe_agent.Audit.{AuditSummary}
use technocore_safe_agent.Audit.Log
use technocore_safe_agent.Capabilities.{CapabilityGrant, CapabilityPolicy}
use technocore_safe_agent.Capabilities.Limiter
use technocore_safe_agent.Config.{IdentityRecord, AgentConfig, TextFile, load_identity, load_config}

-- What one `lstat` or `fstat` comes to: a FileNotFoundError, another OSError, or the metadata.
pub data Stat : Type 0 where
  missing denied : Stat
  found : Bool → Bool → Bool → Stat

-- The two looks at one path: `_path_present`, and `_require_private_regular_file` after it.
pub record Looks : Type 0 where
  pub first : Stat
  pub second : Stat

-- What `flock` comes to: taken, with the outcome of its release; a BlockingIOError; an OSError.
pub data Flock : Type 0 where
  taken : Bool → Flock
  blocked unavailable : Flock

-- Opening the lock file, and its metadata: not opened, or what `fstat` and `flock` come to.
pub data Opening : Type 0 where
  unopened : Opening
  opened : Stat → Flock → Opening

-- What an inspection finds on the disk, beside the files of the world.
pub record Disk : Type 0 where
  pub identity : TextFile
  pub config_looks : Looks
  pub config : TextFile
  pub state_looks : Looks
  pub journal_looks : Looks
  pub audit_looks : Looks
  pub lock : Stat
  pub lock_opening : Opening

-- The entry that a check makes in `checks`, what it adds to `problems`, and its result.
pub record Checked (A : Type 0) : Type 0 where
  pub entry : String
  pub problems : List String
  pub value : A

pub record HealthReport : Type 0 where
  pub status : String
  pub exit_code : ℕ
  pub checks : Dict String
  pub problems : List String

-- `_path_present`
unfoldable pub path_present : Stat → Result Bool
path_present missing = ok false
path_present denied = err health_error
path_present (found _ _ _) = ok true

-- `_require_private_regular_metadata` of what `lstat` or `fstat` gives; their OSError is raised as a
-- HealthError.
unfoldable pub require_private_regular : Stat → Result (Unit {0})
require_private_regular (found is_regular is_private is_owned) =
    if is_regular && is_private && is_owned then ok tt else err health_error
require_private_regular _ = err health_error

-- except these classes: the check's entry is "invalid", and there is a problem.
abbrev pub caught : {A : Type 0} → Bool → String → A → Error → Exec (Checked A)
caught true problem value error =
    pure (record { entry = "invalid"; problems = problem ∷ []; value = value })
caught false problem value error = raise error

abbrev pub clean : {A : Type 0} → String → A → Exec (Checked A)
clean entry value = pure (record { entry = entry; problems = []; value = value })

abbrev pub problem : {A : Type 0} → String → String → A → Exec (Checked A)
problem entry name value = pure (record { entry = entry; problems = name ∷ []; value = value })

abbrev pub is_health_error : Error → Bool
is_health_error health_error = true
is_health_error _ = false

abbrev pub is_identity_error : Error → Bool
is_identity_error identity_error = true
is_identity_error protocol_value_error = true
is_identity_error os_error = true
is_identity_error _ = false

abbrev pub is_config_error : Error → Bool
is_config_error config_error = true
is_config_error health_error = true
is_config_error protocol_value_error = true
is_config_error _ = false

abbrev pub is_state_error : Error → Bool
is_state_error health_error = true
is_state_error state_error = true
is_state_error _ = false

abbrev pub is_capability_error : Error → Bool
is_capability_error capability_error = true
is_capability_error _ = false

abbrev pub is_delivery_error : Error → Bool
is_delivery_error delivery_error = true
is_delivery_error health_error = true
is_delivery_error _ = false

abbrev pub is_audit_error : Error → Bool
is_audit_error audit_error = true
is_audit_error health_error = true
is_audit_error _ = false

-- The problems of a state that is loaded, beside an active configuration.
abbrev pub cursor_problems : Option ℕ → Option ℕ → List String
cursor_problems none provisioned_seq = "state_cursor_missing" ∷ []
cursor_problems (some cursor) none = []
cursor_problems (some cursor) (some provisioned_seq) =
    if ltb cursor provisioned_seq then "state_cursor_behind_config" ∷ [] else []

abbrev pub nonce_problems : Option ℕ → ℕ → List String
nonce_problems none provision_nonce = "state_nonce_missing" ∷ []
nonce_problems (some nonce) provision_nonce =
    if ltb nonce provision_nonce then "state_nonce_behind_config" ∷ [] else []

unfoldable pub state_problems : AgentState → AgentConfig → List String
unfolding lookup parse
state_problems state config =
    cursor_problems (lookup config.room state.cursors) config.provisioned_seq
    ++ nonce_problems (lookup config.room state.nonces) (parse config.provision_nonce)

abbrev pub is_empty : List String → Bool
is_empty [] = true
is_empty (_ ∷ _) = false

unfoldable pub judge_state : AgentState → Option AgentConfig → Exec (Checked (Unit {0}))
unfolding state_problems
judge_state state none = clean "valid_unbound" tt
judge_state state (some config) = pure (record {
  entry = if is_empty (state_problems state config) then "valid" else "invalid";
  problems = state_problems state config;
  value = tt;
})
