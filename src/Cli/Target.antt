-- ===== src/Cli/Target.antt =====
-- What the `run` command of cli.py takes from its arguments and the configuration.
use technocore_safe_agent.Base.{
  ℕ, String, Bool, ◌&&◌, Option, none, some, List, [], ◌∷◌, ◌==◌, string_eq, if◌then◌else◌, Result,
  ok, err, config_error, require, ◌>>=◌, ◌>>◌,
}
use technocore_safe_agent.Crypto.{validate_room, validate_did}
use technocore_safe_agent.Crypto.Library.{Primitives}
use technocore_safe_agent.Config.{TextFile, IdentityRecord, AgentConfig, load_config}
use technocore_safe_agent.Cli.{PollOptions}

-- The arguments; times are in milliseconds. The capability policy's file is what the world holds.
pub record RunArgs : Type 0 where
  pub room : Option String
  pub base_url : Option String
  pub timeout : ℕ
  pub github_timeout : ℕ
  pub has_capability_policy : Bool
  pub allow_did : List String
  pub allow_any_signed : Bool
  pub send : Bool
  pub start_at : String
  pub polling : PollOptions

-- The configuration belongs to the identity and is active.
abbrev pub check_config : IdentityRecord → AgentConfig → Result AgentConfig
check_config record' config = do
  require (config.did == record'.did && config.fingerprint == record'.fingerprint) config_error
  require (config.status == "active") config_error
  ok config

-- `_load_active_config`; none is a path at which no file exists.
unfoldable pub load_active_config :
    Primitives → IdentityRecord → Option TextFile → Result (Option AgentConfig)
unfolding load_config
load_active_config p record' none = ok none
load_active_config p record' (some file) = do
  config ← load_config p file
  checked ← check_config record' config
  ok (some checked)

-- A text that is given and not empty.
abbrev pub given_or : String → Option String → String
given_or default none = default
given_or default (some s) = if s == "" then default else s

unfoldable pub room_for : Option String → Option AgentConfig → Result String
room_for none none = err config_error
room_for none (some config) = ok config.room
room_for (some room) none = if room == "" then err config_error else validate_room room
room_for (some room) (some config) = if room == "" then ok config.room else validate_room room

abbrev pub default_url : Option AgentConfig → String
default_url none = "https://technocore.chat"
default_url (some config) = config.base_url

-- `_resolve_runtime_target`
unfoldable pub resolve_runtime_target : RunArgs → Option AgentConfig → Result (String × String)
unfolding room_for
resolve_runtime_target args config = do
  room ← room_for args.room config
  ok (room, given_or (default_url config) args.base_url)

-- The set of `validate_did(did) for did in args.allow_did`; only membership is asked of it.
unfoldable pub validated_dids : List String → Result (List String)
validated_dids [] = ok []
validated_dids (did ∷ dids) = do
  valid ← validate_did did
  rest ← validated_dids dids
  ok (valid ∷ rest)
