-- ===== src/Policy/Frame.antt =====
-- `decide` changes the quota histories alone, in memory and in the state file.
use technocore_safe_agent.Base.{
  ℕ, String, Bool, true, false, ◌≡◌, refl, ◌&&◌, not, Option, none, some, List, ok, leb, arith,
  capability_error, ◌==◌, string_eq,
}
use technocore_safe_agent.Base.Dict.{Dict}
use technocore_safe_agent.Crypto.{validate_did}
use technocore_safe_agent.Crypto.Library.{Primitives}
use technocore_safe_agent.State.{AgentState, reserve_capability_request, capability_request_count}
use technocore_safe_agent.State.Store.{set_state_file}
use technocore_safe_agent.State.Durability.{Keeps-save}
use technocore_safe_agent.World.{World}
use technocore_safe_agent.Exec.{pure}
use technocore_safe_agent.Exec.Triple.{
  Pred, Keeps, bind, weaken, given, Triple-gets, Triple-lift, Keeps-bind, Keeps-pure, Keeps-raise,
  Keeps-lift, Keeps-gets, Keeps-try_except, Keeps-when, Keeps-require,
}
use technocore_safe_agent.Exec.Frame.{Stable, Triple-put_state}
use technocore_safe_agent.Audit.Frame.{Keeps-if}
use technocore_safe_agent.Protocol.{RoomMessage, is_signed}
use technocore_safe_agent.Capabilities.{CapabilityGrant, grant_for}
use technocore_safe_agent.Capabilities.Limiter.{
  take_reading, now_of, reserve, allow, window_seconds, invalid_principal,
}
use technocore_safe_agent.Capabilities.Frame.{Keeps-load}
use technocore_safe_agent.Policy.{
  CommandPolicy, Decision, decide, authorize_sender, grant_of, apply_limit, decide_command,
  decide_authorized_command, parse_command, command_name, judge_sender, ignored, limited,
  denied_by_grant, misses_command, is_ignore, Authorization, unless_denied,
}

-- A world whose quota histories are `c`.
abbrev pub with_requests : Dict (List ℕ) → World → World
with_requests c w = record w { state = record w.state { capability_requests = c } }

reserve_capability_request-eq :
    (did : String) (now window : ℕ) (s t : AgentState)
    → reserve_capability_request did now window s ≡ ok t
    → (c : Dict (List ℕ)) × (t ≡ record s { capability_requests = c })
unfolding reserve_capability_request
reserve_capability_request-eq did now window s t h = (t.capability_requests, ground arith)

module _ {P : Pred} (s : Stable P)
    (counted : (w : World) (c : Dict (List ℕ)) → P w → P (with_requests c w))
    (saved : (w : World) → P w → P (set_state_file w.state w)) where
  Keeps-reserve : (did : String) (now : ℕ) → Keeps P (reserve did now)
  unfolding reserve
  Keeps-reserve did now =
      bind (λ t w. P w × (t ≡ w.state)) (Triple-gets (λ w. w.state))
        λ t.
          bind
            (λ t' w.
              (P w × (t ≡ w.state)) × (reserve_capability_request did now window_seconds t ≡ ok t'))
            (weaken (Triple-lift (reserve_capability_request did now window_seconds t)) (λ w h. h)
              (λ _ w h. h) (λ _ w h. h.0))
            λ t'. given λ e.
              bind (λ _. P) (Triple-put_state t' λ w h. replaced w t t' h e) λ _. Keeps-save s saved
    where
      replaced :
          (w : World) (t t' : AgentState)
          → P w × (t ≡ w.state)
          → reserve_capability_request did now window_seconds t ≡ ok t'
          → P (record w { state = t' })
      replaced w t t' (h, same) e =
          let (c, changed) = reserve_capability_request-eq did now window_seconds t t' e in
          rw (changed, same) (counted w c h)

  Keeps-take_reading : Keeps P take_reading
  unfolding take_reading
  Keeps-take_reading = record { at = λ w h. s.clock w _ h }

  Keeps-allow : (consume : Bool) (did : String) (limit : ℕ) → Keeps P (allow consume did limit)
  unfolding allow
  Keeps-allow consume did limit =
      Keeps-bind
        (Keeps-try_except (Keeps-lift (validate_did did)) (λ e. Keeps-raise (invalid_principal e)))
        λ valid_did.
          Keeps-bind (Keeps-require (leb 1 limit && leb limit 1_000) capability_error) λ _.
            Keeps-bind Keeps-take_reading λ raw_now. Keeps-bind (Keeps-lift (now_of raw_now)) λ now.
              Keeps-bind (Keeps-gets (λ w. w.state)) λ t.
                Keeps-bind (Keeps-lift (capability_request_count t valid_did now window_seconds))
                  λ count. Keeps-if (leb limit count) (Keeps-pure false) (
                    Keeps-bind (Keeps-when consume (Keeps-reserve valid_did now))
                      λ _. Keeps-pure true)

  module _ (p : Primitives) (policy : CommandPolicy) where
    Keeps-grant_of : (did : String) → Keeps P (grant_of p policy did)
    unfolding grant_of
    Keeps-grant_of did =
        Keeps-if policy.has_capabilities
          (Keeps-bind (Keeps-load s p) λ capabilities. Keeps-pure (grant_for capabilities did))
          (Keeps-pure none)

    Keeps-authorize_sender : (message : RoomMessage) → Keeps P (authorize_sender p policy message)
    unfolding authorize_sender
    Keeps-authorize_sender message =
        Keeps-if (message.sender == policy.own_did)
          (Keeps-pure (some (ignored "own_message"), none))
          (Keeps-if (not (is_signed message)) (Keeps-pure (some (ignored "unsigned_sender"), none))
            (Keeps-bind (Keeps-grant_of message.sender)
              λ grant. Keeps-pure (judge_sender policy message grant)))

    limit_by :
        (limiter : Option Bool) (message : RoomMessage) (g : CapabilityGrant) (decision : Decision)
        → policy.limiter ≡ limiter
        → Keeps P (apply_limit p policy message (some g) decision)
    unfolding apply_limit
    limit_by none message g decision e = rw e (Keeps-raise capability_error)
    limit_by (some consume) message g decision e = rw e (
        Keeps-bind (Keeps-allow consume message.sender g.max_requests_per_hour)
          λ allowed. Keeps-pure (limited p policy allowed decision))

    Keeps-apply_limit :
        (message : RoomMessage) (grant : Option CapabilityGrant) (decision : Decision)
        → Keeps P (apply_limit p policy message grant decision)
    unfolding apply_limit
    Keeps-apply_limit message none decision = Keeps-pure decision
    Keeps-apply_limit message (some g) decision = limit_by policy.limiter message g decision refl

    Keeps-decide_command :
        (name : String) (message : RoomMessage) (grant : Option CapabilityGrant)
        → Keeps P (decide_command p policy name message grant)
    unfolding decide_command
    Keeps-decide_command name message grant =
        Keeps-if (misses_command grant name) (Keeps-pure (ignored "command_not_granted")) (
          Keeps-bind (Keeps-lift (parse_command p name message.text)) λ parsed.
            Keeps-if (is_ignore parsed.decision.action) (Keeps-pure parsed.decision) (
              Keeps-if (denied_by_grant p grant parsed)
                (Keeps-pure (ignored "repository_not_granted"))
                (Keeps-apply_limit message grant parsed.decision)))

    decide_named :
        (name : Option String) (message : RoomMessage) (grant : Option CapabilityGrant)
        → Keeps P (elim name [
          | none ↦ pure (ignored "unsupported_command")
          | some n ↦ decide_command p policy n message grant
        ])
    decide_named none message grant = Keeps-pure (ignored "unsupported_command")
    decide_named (some name) message grant = Keeps-decide_command name message grant

    Keeps-unless_denied :
        (message : RoomMessage) (authorization : Authorization)
        → Keeps P (unless_denied p policy message authorization)
    unfolding decide_authorized_command
    Keeps-unless_denied message (some denial, grant) = Keeps-pure denial
    Keeps-unless_denied message (none, grant) =
        decide_named (command_name message.text) message grant

    pub Keeps-decide : (message : RoomMessage) → Keeps P (decide p policy message)
    unfolding decide
    Keeps-decide message = Keeps-bind (Keeps-authorize_sender message) (Keeps-unless_denied message)
