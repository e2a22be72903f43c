-- ===== src/Cli/Started.antt =====
-- What `_run_with_identity` of cli.py has checked before it sends anything.
use technocore_safe_agent.Base.{
  String, true, ◌≡◌, refl, ◌&&◌, ◌⊎◌, inl, inr, Option, none, some, List, string_eq, leb, ok,
  protocol_value_error, audit_error, Bool-cases,
}
use technocore_safe_agent.Crypto.{validate_did}
use technocore_safe_agent.Crypto.Library.{Primitives, PrivateKey}
use technocore_safe_agent.World.{File, ByteFile, Envelope}
use technocore_safe_agent.Exec.Triple.{
  Pred, Triple, Keeps, bind, weaken, given, returns, Triple-lift, Triple-require, Keeps-bind,
  Keeps-gets, Keeps-require, Keeps-pure, Keeps-lift,
}
use technocore_safe_agent.Exec.Frame.{Stable, Stable-view, Triple-put_state}
use technocore_safe_agent.Capabilities.Frame.{Keeps-load}
use technocore_safe_agent.Audit.Frame.{Keeps-verify}
use technocore_safe_agent.Audit.Log.{may_extend}
use technocore_safe_agent.Delivery.Durability.{Triple-require_empty}
use technocore_safe_agent.Protocol.BaseUrl.{technocore_client}
use technocore_safe_agent.Config.{TextFile, IdentityRecord, AgentConfig}
use technocore_safe_agent.Config.Health.Frame.{Keeps-load_state}
use technocore_safe_agent.Cli.Target.{
  RunArgs, load_active_config, resolve_runtime_target, validated_dids,
}
use technocore_safe_agent.Cli.Run.{
  is_authorised, command_policy, check_audit, live_artifacts, start_up,
}

-- A policy is built only from a capability policy, or after the test of the sender flags.
abbrev pub IsAuthorised : RunArgs → Type 0
IsAuthorised args =
    (args.has_capability_policy ≡ true)
    ⊎ (allowed : List String) × (validated_dids args.allow_did ≡ ok allowed)
      × (is_authorised args allowed ≡ true)

-- What was sent, and the journal; a start does not change them.
module _ (S : List Envelope → Option File → Type 0) where
  abbrev pub Start : Pred
  Start w = S w.wire w.journal_file

  pub Stable-Start : Stable Start
  Stable-Start = Stable-view λ v. S v.wire v.journal_file

  module _ (p : Primitives) (args : RunArgs) where
    Triple-command_policy :
        (did : String)
        → Triple Start (command_policy p args did) (λ _ w. Start w × IsAuthorised args) (λ _. Start)
    unfolding command_policy
    Triple-command_policy did = elim (Bool-cases args.has_capability_policy) [
      | inl policed ↦ rw (policed) (
          bind (λ _. Start) (Keeps-load Stable-Start p)
            λ capabilities.
              weaken (Triple-lift _) (λ w h. h) (λ _ w h. (h.0, inl refl)) (λ _ w h. h))
      | inr plain ↦ rw (plain) (
          bind (λ allowed w. Start w × (validated_dids args.allow_did ≡ ok allowed)) (Triple-lift _)
            λ allowed. given λ valid.
              bind (λ _ w. Start w × (is_authorised args allowed ≡ true))
                (Triple-require _ protocol_value_error)
                λ _. given λ tested.
                  weaken (Triple-lift _) (λ w h. h) (λ _ w h. (h.0, inr (allowed, valid, tested)))
                    (λ _ w h. h))
    ]

    Keeps-check_audit :
        (did : String) (file : Option ByteFile) → Keeps Start (check_audit p args did file)
    unfolding check_audit
    Keeps-check_audit did none = Keeps-pure tt
    Keeps-check_audit did (some file) =
        Keeps-bind (Keeps-verify Stable-Start p none)
          λ summary. Keeps-require (may_extend summary.issuer did) audit_error

-- A configuration, where there is one, belongs to the identity and is active.
abbrev pub IsActive : IdentityRecord → Option AgentConfig → Type 0
IsActive record' none = Unit
IsActive record' (some config) =
    (config.did ≡ record'.did)
    × (config.fingerprint ≡ record'.fingerprint)
    × (config.status ≡ "active")

module _ (S : List Envelope → Option File → Type 0) (p : Primitives) (args : RunArgs) where
  abbrev Started : Pred
  Started w = Start S w × (args.send ≡ true → w.journal_file ≡ none)

  Triple-live_artifacts :
      (did : String) → Triple (Start S) (live_artifacts p args did) (λ _. Started) (λ _. Start S)
  unfolding live_artifacts
  Triple-live_artifacts did = elim (Bool-cases args.send) [
    | inl sends ↦ rw (sends) (
        bind (λ _. Start (λ wire journal. S wire journal × (journal ≡ none)))
          (weaken (Triple-require_empty (Stable-Start S) p) (λ w h. h) (λ _ w h. h) (λ _ w h. h))
          λ _.
            weaken
              (Keeps-bind (Keeps-gets (λ w. w.audit_file)) λ file.
                Keeps-check_audit (λ wire journal. S wire journal × (journal ≡ none)) p args did
                  file)
              (λ w h. h) (λ _ w h. (h.0, λ _. h.1)) (λ _ w h. h.0))
    | inr dry ↦ rw (dry) (returns tt λ w h. (h, λ sends. cc))
  ]

  -- A start that returns: its responder, and what it has found.
  pub Triple-start_up :
      (record' : IdentityRecord) (key : PrivateKey) (file : Option TextFile)
      → Triple
          (Start S)
          (start_up p args record' key file)
          (λ r w.
            Started w
            × ((r.send ≡ args.send)
                × IsAuthorised args
                × (config : Option AgentConfig) × (load_active_config p record' file ≡ ok config)))
          (λ _. Start S)
  unfolding start_up
  Triple-start_up record' key file =
      bind (λ config w. Start S w × (load_active_config p record' file ≡ ok config)) (Triple-lift _)
        λ config. given λ loaded.
          bind (λ _. Start S) (Keeps-lift (resolve_runtime_target args config))
            λ target.
              bind (λ _. Start S) (Keeps-load_state (Stable-Start S))
                λ state.
                  bind (λ _. Start S) (Triple-put_state state λ w h. h)
                    λ _.
                      bind (λ _ w. Start S w × IsAuthorised args)
                        (Triple-command_policy S p args record'.did)
                        λ policy. given λ authorised.
                          bind (λ _. Started) (Triple-live_artifacts record'.did)
                            λ _.
                              weaken
                                (bind (λ _. Started)
                                  (Keeps-lift (technocore_client p target.1 args.timeout))
                                  λ client.
                                    bind (λ _. Started)
                                      (Keeps-require
                                        (leb 100 args.github_timeout
                                          && leb args.github_timeout 60_000)
                                        protocol_value_error)
                                      λ _.
                                        bind {E = λ _. Started} (λ _. Started)
                                          (Keeps-lift (validate_did record'.did))
                                          λ did.
                                            returns _
                                              λ w h. (h, (refl, authorised, config, loaded)))
                                (λ w h. h) (λ _ w h. h) (λ _ w h. h.0)
