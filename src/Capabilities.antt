-- ===== src/Capabilities.antt =====
-- Grants and their parser: capabilities.py without its I/O.
pub mod Limiter
pub mod Frame
use technocore_safe_agent.Base.{
  ℕ, ◌+◌, String, Bool, true, false, ◌&&◌, ◌||◌, not, Option, none, some, List, [], ◌∷◌, ◌++◌, ◌==◌,
  nat_eq, string_eq, list_eq, leb, ltb, length, contains, every, if◌then◌else◌, Result, ok, err,
  capability_error, protocol_value_as, require, ◌>>=◌, ◌>>◌,
}
use technocore_safe_agent.Base.Dict.{Dict, lookup, insert}
use technocore_safe_agent.Json.{
  Value, Items, Fields, bool, str, list, obj, nil, cons, end, field, get, keys, keys_are, positive,
}
use technocore_safe_agent.Crypto.{validate_did, strip}
use technocore_safe_agent.Crypto.Chars.{codes, strip_prefix}
use technocore_safe_agent.Crypto.Library.{Primitives}
use technocore_safe_agent.Github.{owner_pattern, repository_pattern, ends_with}
use technocore_safe_agent.Github.Url.{split_slash}

pub record CapabilityGrant : Type 0 where
  pub enabled : Bool
  pub commands : List String
  pub repositories : List String
  pub max_requests_per_hour : ℕ

pub record CapabilityPolicy : Type 0 where
  pub principals : Dict CapabilityGrant

unfoldable pub grant_for : CapabilityPolicy → String → Option CapabilityGrant
grant_for policy did = lookup did policy.principals

abbrev pub supported_commands : List String
supported_commands = "/ping" ∷ "/status" ∷ "/about" ∷ "/help" ∷ "/pr" ∷ []

-- text.count("/")
unfoldable pub count_slashes : List ℕ → ℕ
count_slashes [] = 0
count_slashes (c ∷ cs) = let rest = count_slashes cs in if c == b'/' then rest + 1 else rest

-- scope[:-1], of a scope that is not empty
abbrev pub but_last : List ℕ → List ℕ
but_last [] = []
but_last (c ∷ []) = []
but_last (c ∷ d ∷ cs) = c ∷ but_last (d ∷ cs)

abbrev pub starts_with : List ℕ → List ℕ → Bool
starts_with cs prefix = elim (strip_prefix prefix cs) [ none ↦ false | some _ ↦ true ]

-- One round of the loop over the scopes.
unfoldable pub scope_allows : String → String → Bool
unfolding count_slashes ends_with strip_prefix
scope_allows candidate scope =
    if ends_with (codes "/*") (codes scope)
    then starts_with (codes candidate) (but_last (codes scope))
      && count_slashes (codes candidate) == 1
    else candidate == scope

unfoldable pub any_scope_allows : String → List String → Bool
unfolding scope_allows
any_scope_allows candidate [] = false
any_scope_allows candidate (scope ∷ scopes) =
    scope_allows candidate scope || any_scope_allows candidate scopes

unfoldable pub allows_repository : Primitives → CapabilityGrant → String → Bool
unfolding any_scope_allows
allows_repository p grant full_name = any_scope_allows (p.casefold full_name) grant.repositories

abbrev pub text_command : Value → Result String
text_command (str s) = if contains supported_commands s then ok s else err capability_error
text_command _ = err capability_error

unfoldable pub commands_onto : List String → Items → Result (List String)
commands_onto checked nil = ok checked
commands_onto checked (cons value rest) = do
  command ← text_command value
  require (not (contains checked command)) capability_error
  commands_onto (checked ++ command ∷ []) rest

unfoldable pub commands_of : Value → Result (List String)
unfolding commands_onto
commands_of (list xs) = commands_onto [] xs
commands_of _ = err capability_error

abbrev pub valid_scope_parts : List String → Bool
valid_scope_parts (owner ∷ repository ∷ []) =
    owner_pattern owner
    && (repository == "*"
        || repository_pattern repository
          && not (repository == "." || repository == "..")
          && not (ends_with (codes ".git") (codes repository)))
valid_scope_parts _ = false

-- f"{owner}/{repository}" is the value again.
unfoldable pub repository_scope : Primitives → Value → Result String
repository_scope p (str value) = do
  require (value == strip p value) capability_error
  require (valid_scope_parts (split_slash value)) capability_error
  ok (p.casefold value)
repository_scope p _ = err capability_error

unfoldable pub scopes_onto : Primitives → List String → Items → Result (List String)
unfolding repository_scope
scopes_onto p checked nil = ok checked
scopes_onto p checked (cons value rest) = do
  scope ← repository_scope p value
  require (not (contains checked scope)) capability_error
  scopes_onto p (checked ++ scope ∷ []) rest

unfoldable pub repository_scopes : Primitives → Value → Result (List String)
unfolding scopes_onto
repository_scopes p (list xs) = scopes_onto p [] xs
repository_scopes p _ = err capability_error

abbrev pub bool_of : Value → Result Bool
bool_of (bool b) = ok b
bool_of _ = err capability_error

abbrev pub is_empty : List String → Bool
is_empty [] = true
is_empty (_ ∷ _) = false

abbrev pub rate_of : Option ℕ → Result ℕ
rate_of none = err capability_error
rate_of (some rate) = if leb rate 1_000 then ok rate else err capability_error

abbrev pub grant_keys : List String
grant_keys = "enabled" ∷ "commands" ∷ "repositories" ∷ "max_requests_per_hour" ∷ []

unfoldable pub parse_grant : Primitives → Value → Result CapabilityGrant
unfolding commands_of repository_scopes get keys_are positive
parse_grant p (obj payload) = do
  require (keys_are grant_keys payload) capability_error
  enabled ← bool_of (get "enabled" payload)
  commands ← commands_of (get "commands" payload)
  repositories ← repository_scopes p (get "repositories" payload)
  require (not (enabled && is_empty commands)) capability_error
  require (not (contains commands "/pr" && enabled && is_empty repositories)) capability_error
  require (not (not (contains commands "/pr") && not (is_empty repositories))) capability_error
  rate ← rate_of (positive (get "max_requests_per_hour" payload))
  ok (record {
    enabled = enabled;
    commands = commands;
    repositories = repositories;
    max_requests_per_hour = rate;
  })
parse_grant p _ = err capability_error

unfoldable pub parse_principals :
    Primitives → Fields → Dict CapabilityGrant → Result (Dict CapabilityGrant)
unfolding parse_grant
parse_principals p end principals = ok principals
parse_principals p (field raw_did raw_grant rest) principals = do
  did ← protocol_value_as capability_error (validate_did raw_did)
  grant ← parse_grant p raw_grant
  parse_principals p rest (insert did grant principals)

abbrev pub fields_of : Value → Result Fields
fields_of (obj fs) = ok fs
fields_of _ = err capability_error

abbrev pub has_schema : Value → Bool
has_schema (str s) = s == "technocore-safe-agent-capabilities-v1"
has_schema _ = false

unfoldable pub parse_policy : Primitives → Value → Result CapabilityPolicy
unfolding parse_principals get keys_are
parse_policy p payload = do
  top ← fields_of payload
  require (keys_are ("schema" ∷ "principals" ∷ []) top) capability_error
  require (has_schema (get "schema" top)) capability_error
  raw_principals ← fields_of (get "principals" top)
  require (leb (length (keys raw_principals)) 128) capability_error
  principals ← parse_principals p raw_principals []
  ok (record { principals = principals })
