-- ===== src/Agent/Escape.antt =====
-- A `ValueError` of `urlsplit` passes every handler of policy.py and agent.py.
use mathlib.Core.Path.{subst}
use technocore_safe_agent.Base.{
  ℕ, String, true, false, ◌≡◌, refl, sym, if◌then◌else◌, Option, none, some, List, ◌∷◌, ok, err,
  leb, ◌==◌, string_eq, value_error,
}
use technocore_safe_agent.Crypto.{strip}
use technocore_safe_agent.Crypto.Library.{Primitives}
use technocore_safe_agent.World.{World}
use technocore_safe_agent.Exec.{Exec, lift, pure, ◌>>=◌}
use technocore_safe_agent.Protocol.{RoomMessage, is_signed}
use technocore_safe_agent.Github.Url.{parse_github_pull_request_url}
use technocore_safe_agent.Policy.{
  CommandPolicy, ParsedCommand, Decision, is_ignore, denied_by_grant, apply_limit, ignored, decide,
  authorize_sender, grant_of, judge_sender, command_name, parse_command, raw_url, replies,
  decide_command, decide_authorized_command,
}
use technocore_safe_agent.Agent.{Responder, event_for_message, process_messages}

module _ (p : Primitives) where
  parse_github_pull_request_url-value_error :
      (url : String)
      → (url == strip p url) ≡ true
      → p.urlsplit url ≡ none
      → parse_github_pull_request_url p url ≡ err value_error
  unfolding parse_github_pull_request_url
  parse_github_pull_request_url-value_error url stripped fails = rw (stripped, fails) refl

  parse_command-value_error :
      (text : String)
      → (raw_url text == strip p (raw_url text)) ≡ true
      → p.urlsplit (raw_url text) ≡ none
      → parse_command p "/pr" text ≡ err value_error
  unfolding parse_command replies
  parse_command-value_error text stripped fails =
      rw (parse_github_pull_request_url-value_error (raw_url text) stripped fails) refl

  module _ (policy : CommandPolicy) (message : RoomMessage) (w : World) where
    -- A policy that lets any signed peer give a command.
    authorize_sender-none :
        policy.has_capabilities ≡ false
        → policy.allow_any_signed ≡ true
        → (message.sender == policy.own_did) ≡ false
        → is_signed message ≡ true
        → authorize_sender p policy message w ≡ (ok (none, none), w)
    unfolding authorize_sender grant_of judge_sender
    authorize_sender-none legacy any foreign signed = simp (foreign, signed, legacy, any) refl

    decide_command-value_error :
        parse_command p "/pr" message.text ≡ err value_error
        → decide_command p policy "/pr" message none w ≡ (err value_error, w)
    unfolding decide_command
    decide_command-value_error fails =
        subst (λ x. (lift x >>= answer) w ≡ (err value_error, w)) (sym fails) refl
      where
        answer : ParsedCommand → Exec Decision
        answer parsed =
            if is_ignore parsed.decision.action
            then pure parsed.decision
            else if denied_by_grant p none parsed
            then pure (ignored "repository_not_granted")
            else apply_limit p policy message none parsed.decision

    abbrev by_name : Option String → Exec Decision
    by_name name = elim name [
      | none ↦ pure (ignored "unsupported_command")
      | some n ↦ decide_command p policy n message none
    ]

    by_name-value_error :
        (name : Option String)
        → some "/pr" ≡ name
        → parse_command p "/pr" message.text ≡ err value_error
        → by_name name w ≡ (err value_error, w)
    by_name-value_error name command fails =
        subst (λ (x : Option String). by_name x w ≡ (err value_error, w)) command
          (decide_command-value_error fails)

    decide_authorized_command-value_error :
        command_name message.text ≡ some "/pr"
        → parse_command p "/pr" message.text ≡ err value_error
        → decide_authorized_command p policy message none w ≡ (err value_error, w)
    unfolding decide_authorized_command
    decide_authorized_command-value_error command fails =
        by_name-value_error (command_name message.text) (sym command) fails

    decide-value_error :
        authorize_sender p policy message w ≡ (ok (none, none), w)
        → decide_authorized_command p policy message none w ≡ (err value_error, w)
        → decide p policy message w ≡ (err value_error, w)
    unfolding decide
    decide-value_error authorized fails = simp (authorized, fails) refl

-- Where a policy lets any signed peer give a command, and `urlsplit` raises a ValueError for the
-- stripped text after "/pr " of a new message of such a peer, the loop over the messages raises that ValueError;
-- nothing is sent or saved, and the cursor stays before the message.
pub process_messages-value_error :
    (p : Primitives) (r : Responder) (cursor : ℕ) (message : RoomMessage) (rest : List RoomMessage)
    (w : World)
    → leb message.seq cursor ≡ false
    → r.policy.has_capabilities ≡ false
    → r.policy.allow_any_signed ≡ true
    → (message.sender == r.policy.own_did) ≡ false
    → is_signed message ≡ true
    → command_name message.text ≡ some "/pr"
    → (raw_url message.text == strip p (raw_url message.text)) ≡ true
    → p.urlsplit (raw_url message.text) ≡ none
    → process_messages p r cursor (message ∷ rest) w ≡ (err value_error, w)
unfolding process_messages event_for_message
process_messages-value_error p r cursor message rest w new legacy any foreign signed command
      stripped fails =
    let authorized = authorize_sender-none p r.policy message w legacy any foreign signed in
    let refused =
      decide_authorized_command-value_error p r.policy message w command
        (parse_command-value_error p message.text stripped fails) in
    simp (new, decide-value_error p r.policy message w authorized refused) refl
