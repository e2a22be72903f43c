-- ===== src/Policy/Permits.antt =====
-- What `decide` of policy.py permits: it answers a command only of a sender that may give it.
use technocore_safe_agent.Base.{
  String, Bool, true, false, ◌≡◌, refl, ◌&&◌, ◌||◌, not, Option, none, some, ◌⊎◌, inl, inr, ok,
  ◌==◌, string_eq, contains, capability_error, arith, if◌then◌else◌, Bool-cases,
}
use technocore_safe_agent.Crypto.Library.{Primitives}
use technocore_safe_agent.World.{World}
use technocore_safe_agent.Exec.{pure, raise, ◌>>=◌}
use technocore_safe_agent.Exec.Triple.{Ends, Triple, bind, returns, weaken}
use technocore_safe_agent.Exec.Returns.{
  Returns, Returns-any, Returns-pure, Returns-raise, Returns-lift, Returns-bind, Returns-if,
}
use technocore_safe_agent.Protocol.{RoomMessage, is_signed}
use technocore_safe_agent.Capabilities.{CapabilityGrant}
use technocore_safe_agent.Capabilities.Limiter.{allow}
use technocore_safe_agent.Policy.Grants.{
  IsGrantOf, CommandGranted, RepositoryGranted, Triple-grant_of, misses_command-CommandGranted,
  denied_by_grant-RepositoryGranted,
}
use technocore_safe_agent.Policy.{
  CommandPolicy, Decision, ParsedCommand, Authorization, decide, authorize_sender, judge_sender,
  listed, ignored, limited, is_ignore, command_name, parse_command, misses_command, denied_by_grant,
  apply_limit, decide_command, decide_authorized_command, unless_denied,
}

-- The operator's list, or an enabled grant of the capability file.
abbrev pub AdmittedBy : CommandPolicy → RoomMessage → Bool → Option CapabilityGrant → Type 0
AdmittedBy policy message false grant =
    (policy.allow_any_signed || contains policy.allowed_dids message.sender) ≡ true
AdmittedBy policy message true grant = (g : CapabilityGrant) × (grant ≡ some g) × (g.enabled ≡ true)

-- `grant` is the sender's own in the capability file that the next read finds.
pub record Admitted (p : Primitives) (w : World) (policy : CommandPolicy) (message : RoomMessage)
    (grant : Option CapabilityGrant) : Type 0 where
  pub foreign : (message.sender == policy.own_did) ≡ false
  pub signed : is_signed message ≡ true
  pub granted : IsGrantOf p w message.sender policy.has_capabilities grant
  pub admitted_by : AdmittedBy policy message policy.has_capabilities grant

-- The decision is that of a command which the sender may give.
pub record Permitted (p : Primitives) (w : World) (policy : CommandPolicy) (message : RoomMessage)
    (decision : Decision) : Type 0 where
  pub grant : Option CapabilityGrant
  pub admitted : Admitted p w policy message grant
  pub name : String
  pub is_command : command_name message.text ≡ some name
  pub command_granted : CommandGranted grant name
  pub parsed : ParsedCommand
  pub is_parsed : parse_command p name message.text ≡ ok parsed
  pub repository_granted : RepositoryGranted p grant parsed.repository
  pub is_answer : decision ≡ parsed.decision

abbrev pub IgnoredOr : Primitives → World → CommandPolicy → RoomMessage → Decision → Type 0
IgnoredOr p w policy message decision =
    (is_ignore decision.action ≡ true) ⊎ Permitted p w policy message decision

module _ (p : Primitives) (w : World) (policy : CommandPolicy) (message : RoomMessage) where
  abbrev Judged : Authorization → Type 0
  Judged (some denial, grant) = is_ignore denial.action ≡ true
  Judged (none, grant) = Admitted p w policy message grant

  listed-Judged :
      (message.sender == policy.own_did) ≡ false
      → is_signed message ≡ true
      → policy.has_capabilities ≡ false
      → IsGrantOf p w message.sender false none
      → (b : Bool)
      → (not policy.allow_any_signed && not (contains policy.allowed_dids message.sender)) ≡ b
      → Judged (listed b)
  listed-Judged foreign signed e from true h = refl
  listed-Judged foreign signed e from false h = record {
    foreign = foreign;
    signed = signed;
    granted = rw e from;
    admitted_by = rw e (ground (arith, h));
  }

  judge_granted :
      (message.sender == policy.own_did) ≡ false
      → is_signed message ≡ true
      → policy.has_capabilities ≡ true
      → (grant : Option CapabilityGrant) → IsGrantOf p w message.sender true grant
      → Judged (elim grant [
        | none ↦ (some (ignored "principal_not_granted"), none)
        | some g ↦ if g.enabled then (none, some g) else (some (ignored "principal_revoked"), none)
      ])
  judge_granted foreign signed e none from = refl
  judge_granted foreign signed e (some g) from = enabled_by g.enabled refl
    where
      enabled_by :
          (b : Bool)
          → g.enabled ≡ b
          → Judged (if b then (none, some g) else (some (ignored "principal_revoked"), none))
      enabled_by true on = record {
        foreign = foreign;
        signed = signed;
        granted = rw e from;
        admitted_by = rw e (g, refl, on);
      }
      enabled_by false off = refl

  judge_by :
      (message.sender == policy.own_did) ≡ false
      → is_signed message ≡ true
      → (capabilities : Bool) → policy.has_capabilities ≡ capabilities
      → (grant : Option CapabilityGrant) → IsGrantOf p w message.sender capabilities grant
      → Judged (
          if not capabilities
          then listed
              (not policy.allow_any_signed && not (contains policy.allowed_dids message.sender))
          else elim grant [
            | none ↦ (some (ignored "principal_not_granted"), none)
            | some g ↦
                if g.enabled then (none, some g) else (some (ignored "principal_revoked"), none)
          ])
  judge_by foreign signed false e grant from = listed-Judged foreign signed e refl _ refl
  judge_by foreign signed true e grant from = judge_granted foreign signed e grant from

  judge_sender-Judged :
      (message.sender == policy.own_did) ≡ false
      → is_signed message ≡ true
      → (grant : Option CapabilityGrant)
      → IsGrantOf p w message.sender policy.has_capabilities grant
      → Judged (judge_sender policy message grant)
  unfolding judge_sender
  judge_sender-Judged foreign signed = judge_by foreign signed policy.has_capabilities refl

  Triple-authorize_sender :
      Triple
        (λ w'. w' ≡ w)
        (authorize_sender p policy message)
        (λ judged _. Judged judged)
        (λ _ _. Unit {0})
  unfolding authorize_sender
  Triple-authorize_sender = elim (Bool-cases (message.sender == policy.own_did)) [
    | inl own ↦ rw own (returns (some (ignored "own_message"), none) λ _ _. refl)
    | inr foreign ↦ rw foreign (elim (Bool-cases (is_signed message)) [
      | inl signed ↦ rw signed (
          bind (λ grant _. IsGrantOf p w message.sender policy.has_capabilities grant)
            (Triple-grant_of p w policy message.sender)
            λ grant.
              returns (judge_sender policy message grant)
                λ _ from. judge_sender-Judged foreign signed grant from)
      | inr unsigned ↦ rw unsigned (returns (some (ignored "unsigned_sender"), none) λ _ _. refl)
    ])
  ]

  -- The rate limit leaves a decision as it is or ignores the message.
  limited_or :
      (grant : Option CapabilityGrant) (decision : Decision)
      → Returns
          (apply_limit p policy message grant decision)
          (λ d. (is_ignore d.action ≡ true) ⊎ (d ≡ decision))
  unfolding apply_limit
  limited_or none decision = Returns-pure decision (inr refl)
  limited_or (some g) decision = limit_by policy.limiter
    where
      by_answer :
          (allowed : Bool)
          → (is_ignore (limited p policy allowed decision).action ≡ true)
            ⊎ (limited p policy allowed decision ≡ decision)
      by_answer true = inr refl
      by_answer false = inl refl

      limit_by :
          (limiter : Option Bool)
          → Returns
              (elim limiter [
                | none ↦ raise capability_error
                | some consume ↦ (do
                  allowed ← allow consume message.sender g.max_requests_per_hour
                  pure (limited p policy allowed decision))
              ])
              (λ d. (is_ignore d.action ≡ true) ⊎ (d ≡ decision))
      limit_by none = Returns-raise capability_error
      limit_by (some consume) =
          Returns-bind (λ _. Unit {0})
            (Returns-any (allow consume message.sender g.max_requests_per_hour))
            λ allowed _. Returns-pure (limited p policy allowed decision) (by_answer allowed)

  Returns-decide_command :
      (name : String) (grant : Option CapabilityGrant)
      → Admitted p w policy message grant
      → command_name message.text ≡ some name
      → Returns (decide_command p policy name message grant) (IgnoredOr p w policy message)
  unfolding decide_command
  Returns-decide_command name grant admitted is_command =
      Returns-if (misses_command grant name)
        (λ _. Returns-pure (ignored "command_not_granted") (inl refl))
        λ granted.
          Returns-bind (λ parsed. parse_command p name message.text ≡ ok parsed)
            (Returns-lift (parse_command p name message.text))
            λ parsed is_parsed.
              Returns-if (is_ignore parsed.decision.action)
                (λ ignores. Returns-pure parsed.decision (inl ignores))
                λ _.
                  Returns-if (denied_by_grant p grant parsed)
                    (λ _. Returns-pure (ignored "repository_not_granted") (inl refl))
                    λ repository.
                      weaken (limited_or grant parsed.decision) (λ w h. h)
                        (λ d w h. elim h [
                          | inl ignores ↦ inl ignores
                          | inr same ↦ inr (record {
                            grant = grant;
                            admitted = admitted;
                            name = name;
                            is_command = is_command;
                            command_granted = misses_command-CommandGranted grant name granted;
                            parsed = parsed;
                            is_parsed = is_parsed;
                            repository_granted =
                                denied_by_grant-RepositoryGranted p grant parsed parsed.repository
                                  refl repository;
                            is_answer = same;
                          })
                        ])
                        (λ _ w h. h)

  named :
      (grant : Option CapabilityGrant)
      → Admitted p w policy message grant
      → (name : Option String) → command_name message.text ≡ name
      → Returns
          (elim name [
            | none ↦ pure (ignored "unsupported_command")
            | some n ↦ decide_command p policy n message grant
          ])
          (IgnoredOr p w policy message)
  named grant admitted none e = Returns-pure (ignored "unsupported_command") (inl refl)
  named grant admitted (some name) e = Returns-decide_command name grant admitted e

  unless_denied_Returns :
      (authorization : Authorization)
      → Judged authorization
      → Returns (unless_denied p policy message authorization) (IgnoredOr p w policy message)
  unfolding decide_authorized_command
  unless_denied_Returns (some denial, grant) ignores = Returns-pure denial (inl ignores)
  unless_denied_Returns (none, grant) admitted =
      named grant admitted (command_name message.text) refl

  -- In any world, a decision that `decide` returns is to ignore the message, or it is the parsed
  -- decision of a command in a signed message of another sender, whom the operator's list admits, or
  -- whose own entry in the capability file that `decide` reads is enabled, lists the command and has
  -- a scope that covers the command's repository, if it names one.
  pub decide-Permitted :
      Ends
        (λ decision _. IgnoredOr p w policy message decision)
        (λ _ _. Unit {0})
        (decide p policy message w)
  unfolding decide
  decide-Permitted =
      (bind (λ judged _. Judged judged) Triple-authorize_sender
          λ judged. record { at = λ w' known. (unless_denied_Returns judged known).at w' tt }).at
        w refl
