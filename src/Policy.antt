-- ===== src/Policy.antt =====
-- policy.py: which command of which sender gets which answer.
pub mod Frame
pub mod Grants
pub mod Permits
use technocore_safe_agent.Base.{
  String, Bool, true, false, ◌&&◌, ◌||◌, not, Option, none, some, List, ◌==◌, string_eq, bool_eq,
  contains, if◌then◌else◌, Result, ok, err, capability_error, github_receipt_error,
}
use technocore_safe_agent.Crypto.{drop_chars}
use technocore_safe_agent.Crypto.Chars.{codes, strip_prefix}
use technocore_safe_agent.Crypto.Library.{Primitives}
use technocore_safe_agent.Exec.{Exec, pure, raise, lift, ◌>>=◌}
use technocore_safe_agent.Protocol.{RoomMessage, is_signed}
use technocore_safe_agent.Github.Url.{
  GithubPullRequestRef, full_name, url, parse_github_pull_request_url,
}
use technocore_safe_agent.Capabilities.{CapabilityGrant, grant_for, allows_repository, is_empty}
use technocore_safe_agent.Capabilities.Limiter.{load, allow}

pub data Action : Type 0 where
  ignore reply receipt : Action

pub record Decision : Type 0 where
  pub action : Action
  pub reason : String
  pub answer : Option String
  pub target : Option String

pub record ParsedCommand : Type 0 where
  pub name : String
  pub decision : Decision
  pub repository : Option String

-- `has_capabilities` and `limiter` stand for `capabilities is not None` and `rate_limiter`, the
-- limiter's `consume` beside it.
pub record CommandPolicy : Type 0 where
  pub own_did : String
  pub allowed_dids : List String
  pub allow_any_signed : Bool
  pub has_capabilities : Bool
  pub limiter : Option Bool

abbrev pub is_some {ℓ} : {A : Type ℓ} → Option A → Bool
is_some none = false
is_some (some _) = true

-- `__post_init__`
unfoldable pub post_init : CommandPolicy → Result CommandPolicy
post_init policy =
    if policy.has_capabilities && (not (is_empty policy.allowed_dids) || policy.allow_any_signed)
    then err capability_error
    else if policy.has_capabilities == is_some policy.limiter
    then ok policy
    else err capability_error

abbrev pub ignored : String → Decision
ignored reason = record { action = ignore; reason = reason; answer = none; target = none }

-- The keys and values of REPLIES.
unfoldable pub replies : String → Option String
replies text =
    if text == "/ping"
    then some "pong"
    else if text == "/help"
    then some "Commands: /ping, /status, /about, /help, /pr <public GitHub PR URL>"
    else if text == "/status"
    then some
        "Technocore Safe Agent is online. It reads public GitHub PR metadata only and executes no room-supplied tools."
    else if text == "/about"
    then some
        "Keychain-backed Technocore responder. Signed commands only; fixed GitHub PR reads only; no shell, file, general URL, or arbitrary prompt execution."
    else none

-- text.startswith("/pr ")
abbrev pub has_pr_prefix : String → Bool
has_pr_prefix text = is_some (strip_prefix (codes "/pr ") (codes text))

unfoldable pub command_name : String → Option String
unfolding replies
command_name text =
    if is_some (replies text)
    then some text
    else if text == "/pr" || has_pr_prefix text
    then some "/pr"
    else none

-- text.removeprefix("/pr ")
abbrev pub raw_url : String → String
raw_url text = if has_pr_prefix text then drop_chars (codes "/pr ") text else text

abbrev pub pull_request_command : String → Result GithubPullRequestRef → Result ParsedCommand
pull_request_command name (ok reference) = ok (record {
  name = name;
  decision = record {
    action = receipt;
    reason = "allowed_public_pull_request";
    answer = none;
    target = some (url reference);
  };
  repository = some (full_name reference);
})
pull_request_command name (err (github_receipt_error _)) =
    ok (record { name = name; decision = ignored "invalid_pull_request_url"; repository = none })
pull_request_command name (err other) = err other

abbrev pub reply_command : String → String → ParsedCommand
reply_command name answer = record {
  name = name;
  decision = record {
    action = reply;
    reason = "allowed_command";
    answer = some answer;
    target = none;
  };
  repository = none;
}

unfoldable pub parse_command : Primitives → String → String → Result ParsedCommand
unfolding parse_github_pull_request_url full_name url replies
parse_command p name text = elim (replies name) [
  | some answer ↦ ok (reply_command name answer)
  | none ↦ pull_request_command name (parse_github_pull_request_url p (raw_url text))
]

abbrev pub is_ignore : Action → Bool
is_ignore ignore = true
is_ignore _ = false

-- The result of `_authorize_sender`: a denial, or a grant if there is one.
abbrev pub Authorization : Type 0
Authorization = Option Decision × Option CapabilityGrant

abbrev pub listed : Bool → Authorization
listed true = (some (ignored "sender_not_allowlisted"), none)
listed false = (none, none)

-- The tests on the grant, after `_grant_for`. Without a capability file there is no grant.
unfoldable pub judge_sender : CommandPolicy → RoomMessage → Option CapabilityGrant → Authorization
judge_sender policy message grant =
    if not policy.has_capabilities
    then listed (not policy.allow_any_signed && not (contains policy.allowed_dids message.sender))
    else elim grant [
      | none ↦ (some (ignored "principal_not_granted"), none)
      | some g ↦ if g.enabled then (none, some g) else (some (ignored "principal_revoked"), none)
    ]

-- The tests before the rate limit.
unfoldable pub denied_by_grant : Primitives → Option CapabilityGrant → ParsedCommand → Bool
denied_by_grant p none parsed = false
denied_by_grant p (some g) parsed = elim parsed.repository [
  | none ↦ false
  | some repository ↦ not (allows_repository p g repository)
]

abbrev pub misses_command : Option CapabilityGrant → String → Bool
misses_command none name = false
misses_command (some g) name = not (contains g.commands name)

module _ (p : Primitives) (policy : CommandPolicy) where
  unfoldable pub grant_of : String → Exec (Option CapabilityGrant)
  unfolding load ◌>>=◌
  grant_of did =
      if policy.has_capabilities
      then (do capabilities ← load p; pure (grant_for capabilities did))
      else pure none

  unfoldable pub authorize_sender : RoomMessage → Exec Authorization
  unfolding grant_of judge_sender
  authorize_sender message =
      if message.sender == policy.own_did
      then pure (some (ignored "own_message"), none)
      else if not (is_signed message)
      then pure (some (ignored "unsigned_sender"), none)
      else do grant ← grant_of message.sender; pure (judge_sender policy message grant)

  abbrev pub limited : Bool → Decision → Decision
  limited true decision = decision
  limited false decision = ignored "rate_limited"

  unfoldable pub apply_limit : RoomMessage → Option CapabilityGrant → Decision → Exec Decision
  unfolding allow ◌>>=◌
  apply_limit message none decision = pure decision
  apply_limit message (some g) decision = elim policy.limiter [
    | none ↦ raise capability_error
    | some consume ↦ do
      allowed ← allow consume message.sender g.max_requests_per_hour
      pure (limited allowed decision)
  ]

  unfoldable pub decide_command : String → RoomMessage → Option CapabilityGrant → Exec Decision
  unfolding parse_command denied_by_grant apply_limit
  decide_command name message grant =
      if misses_command grant name then pure (ignored "command_not_granted") else do
        parsed ← lift (parse_command p name message.text)
        if is_ignore parsed.decision.action
            then pure parsed.decision
            else if denied_by_grant p grant parsed
            then pure (ignored "repository_not_granted")
            else apply_limit message grant parsed.decision

  unfoldable pub decide_authorized_command : RoomMessage → Option CapabilityGrant → Exec Decision
  unfolding command_name decide_command
  decide_authorized_command message grant = elim (command_name message.text) [
    | none ↦ pure (ignored "unsupported_command")
    | some name ↦ decide_command name message grant
  ]

  abbrev pub unless_denied : RoomMessage → Authorization → Exec Decision
  unless_denied message (some denial, _) = pure denial
  unless_denied message (none, grant) = decide_authorized_command message grant

  unfoldable pub decide : RoomMessage → Exec Decision
  unfolding authorize_sender decide_authorized_command
  decide message = do authorization ← authorize_sender message; unless_denied message authorization
