-- ===== src/Cli/Authorised.antt =====
-- What a whole `run` of cli.py may send.
use mathlib.Core.Path.{subst}
use technocore_safe_agent.Base.{
  ℕ, String, Bool, true, false, ◌≡◌, refl, ◌&&◌, ◌⊎◌, inl, inr, not, Option, none, some, List, [],
  ◌∷◌, ◌==◌, string_eq, str_eq_iff, ok, ok-injective, >>=-eq-ok, config_error, state_error, require,
  if◌then◌else◌, Bool-cases, arith, ◌∙◌, ap,
}
use technocore_safe_agent.Base.{Result, err, sym}
use technocore_safe_agent.Agent.{process_snapshot}
use technocore_safe_agent.Protocol.{RoomSnapshot}
use technocore_safe_agent.Base.Dict.{Dict, lookup}
use technocore_safe_agent.Crypto.Library.{Primitives, PrivateKey}
use technocore_safe_agent.State.{AgentState, observe_generation}
use technocore_safe_agent.World.{World, Envelope}
use technocore_safe_agent.Exec.{Exec, pure, ◌>>=◌}
use technocore_safe_agent.Exec.Triple.{
  Ends, Keeps, bind, weaken, given, Triple-lift, Triple-gets, Keeps-bind, Keeps-gets, Keeps-require,
  Keeps-pure, Keeps-when,
}
use technocore_safe_agent.Exec.Frame.{Triple-put_state}
use technocore_safe_agent.Audit.Frame.{Keeps-if}
use technocore_safe_agent.Policy.{is_some}
use technocore_safe_agent.State.Durability.{Keeps-save}
use technocore_safe_agent.Config.{TextFile, IdentityRecord, AgentConfig, load_config}
use technocore_safe_agent.Agent.{Responder, bootstrap_latest}
use technocore_safe_agent.Agent.Actions.{Keeps-read_room}
use technocore_safe_agent.Agent.Frame.{
  Holds, Stable-Holds, Keeps-move_cursor, Keeps-process_snapshot, observe_generation-eq,
}
use technocore_safe_agent.Cli.{Pause, Step, poll}
use technocore_safe_agent.Cli.Nonces.{Keeps-poll}
use technocore_safe_agent.Agent.Nonces.{NoncesBelow, NoncesUsed, Keeps-send_text}
use technocore_safe_agent.Capabilities.{is_empty}
use technocore_safe_agent.Cli.Target.{RunArgs, load_active_config, validated_dids}
use technocore_safe_agent.Cli.Run.{initialize_cursor, run_with_identity}
use technocore_safe_agent.Cli.Started.{IsAuthorised, IsActive, Triple-start_up}

load_active_config-IsActive :
    (p : Primitives) (record' : IdentityRecord) (file : Option TextFile)
    (config : Option AgentConfig)
    → load_active_config p record' file ≡ ok config
    → IsActive record' config
unfolding load_active_config
load_active_config-IsActive p record' none config h = subst (IsActive record') (ok-injective h) tt
load_active_config-IsActive p record' (some file) config h =
    let (found, e₁, h₁) = >>=-eq-ok (load_config p file) _ h in
    let (checked, e₂, h₂) = >>=-eq-ok _ _ h₁ in
    let (u, e₃, h₃) =
      >>=-eq-ok
        (require (found.did == record'.did && found.fingerprint == record'.fingerprint)
          config_error)
        _ e₂ in
    let (v, e₄, h₄) = >>=-eq-ok (require (found.status == "active") config_error) _ h₃ in
    subst (IsActive record') (ok-injective h₂) (
      subst (λ c. IsActive record' (some c)) (ok-injective h₄)
        (
          ground (arith, str_eq_iff found.did record'.did),
          ground (arith, str_eq_iff found.fingerprint record'.fingerprint),
          ground (arith, str_eq_iff found.status "active"),
        ))

module _ (F : Dict ℕ → List Envelope → Type 0) (p : Primitives) (r : Responder) where
  Keeps-bootstrap_latest : Keeps (Holds F) (bootstrap_latest p r)
  unfolding bootstrap_latest
  Keeps-bootstrap_latest =
      Keeps-bind (Keeps-read_room (Stable-Holds F) r.client r.room 0 0 1) λ snapshot.
        bind (λ s w. Holds F w × (s ≡ w.state)) (Triple-gets (λ w. w.state))
          λ s.
            bind (λ o w. Holds F w × (o.1.nonces ≡ w.state.nonces))
              (weaken (Triple-lift (observe_generation r.room snapshot.generation s)) (λ w h. h)
                (λ o w h. (
                  h.0.0,
                  observe_generation-eq r.room snapshot.generation s o h.1
                      ∙ ap AgentState.nonces h.0.1,
                ))
                (λ _ w h. h.0))
              λ observed.
                bind (λ _. Holds F) (Triple-put_state (observed.1) λ w h. rw (h.1) (h.0))
                  λ _. Keeps-bind (Keeps-move_cursor F p r snapshot.last_seq) λ _.
                    Keeps-bind
                      (Keeps-when r.send (Keeps-save {P = Holds F} (Stable-Holds F) λ w h. h))
                      λ _. Keeps-pure snapshot.last_seq

  Keeps-initialize_cursor : (args : RunArgs) → Keeps (Holds F) (initialize_cursor p args r)
  unfolding initialize_cursor
  Keeps-initialize_cursor args = Keeps-bind (Keeps-gets (λ w. w.state)) λ s.
      Keeps-if (is_some (lookup r.room s.cursors)) (Keeps-pure false) (
        Keeps-bind (Keeps-require (not (args.start_at == "saved")) state_error) λ _.
          Keeps-if (args.start_at == "latest")
            (Keeps-bind Keeps-bootstrap_latest λ sequence. Keeps-pure args.polling.once)
            (Keeps-pure false))

-- `--send` with a capability policy, with allowed senders, or with `--allow-any-signed`.
abbrev pub MaySend : RunArgs → Type 0
MaySend args =
    (args.send ≡ true)
    × ((args.has_capability_policy ≡ true)
        ⊎ ((args.allow_any_signed ≡ true) ⊎ (is_empty args.allow_did ≡ false)))

validated_dids-is_empty :
    (dids allowed : List String)
    → validated_dids dids ≡ ok allowed
    → is_empty dids ≡ true
    → allowed ≡ []
unfolding validated_dids
validated_dids-is_empty [] allowed h e = cc
validated_dids-is_empty (did ∷ dids) allowed h e = cc

IsAuthorised-MaySend : (args : RunArgs) → args.send ≡ true → IsAuthorised args → MaySend args
IsAuthorised-MaySend args sends (inl policed) = (sends, inl policed)
IsAuthorised-MaySend args sends (inr (allowed, valid, tested)) =
    elim (Bool-cases (is_empty args.allow_did)) [
      | inl empty ↦ (
        sends,
        inr (
            inl (
              go args.send args.allow_any_signed allowed sends tested
                (validated_dids-is_empty args.allow_did allowed valid empty))),
      )
      | inr some_did ↦ (sends, inr (inr some_did))
    ]
  where
    go :
        (send any' : Bool) (dids : List String)
        → send ≡ true
        → not (send && is_empty dids && not any') ≡ true
        → dids ≡ []
        → any' ≡ true
    go true true dids h t e = refl
    go true false [] h t e = cc
    go true false (did ∷ dids) h t e = cc
    go false any' dids h t e = cc

module _ (p : Primitives) (args : RunArgs) (record' : IdentityRecord) (key : PrivateKey)
    (file : Option TextFile) (pauses : List Pause) (w : World) where
  -- The journal was missing, and a configuration, where there is one, is the identity's and active.
  abbrev pub IsReady : Type 0
  IsReady =
      (w.journal_file ≡ none)
      × (config : Option AgentConfig) × (load_active_config p record' file ≡ ok config)
      × IsActive record' config

  abbrev pub SentOnlyIf : World → Type 0
  SentOnlyIf w' = (w'.wire ≡ w.wire) ⊎ MaySend args × IsReady

  always :
      {A : Type 0} (r : Result A × World)
      → MaySend args × IsReady
      → Ends (λ _. SentOnlyIf) (λ _. SentOnlyIf) r
  always (ok a, w') h = inr h
  always (err e, w') h = inr h

  abbrev rest : Responder → Exec (List Step)
  unfolding ◌>>=◌
  rest r = initialize_cursor p args r >>= λ done.
      if done then pure [] else poll p r args.polling 1_000 pauses

  Keeps-rest :
      (F : Dict ℕ → List Envelope → Type 0) (r : Responder)
      → ((snapshot : RoomSnapshot) → Keeps (Holds F) (process_snapshot p r snapshot))
      → Keeps (Holds F) (rest r)
  unfolding rest ◌>>=◌
  Keeps-rest F r processed =
      Keeps-bind (Keeps-initialize_cursor F p r args)
        λ done. Keeps-if done (Keeps-pure []) (Keeps-poll F p r args.polling processed 1_000 pauses)

  -- A run sends nothing, whatever it reads and however it ends, unless `--send` is given with a
  -- capability policy, an allowed sender or `--allow-any-signed`, no journal was left over, and the
  -- configuration, if there is one, is active and of the loaded identity.
  pub run_with_identity-SentOnlyIf :
      Ends (λ _. SentOnlyIf) (λ _. SentOnlyIf) (run_with_identity p args record' key file pauses w)
  unfolding run_with_identity rest ◌>>=◌
  run_with_identity-SentOnlyIf =
      (bind _
          (weaken
            (Triple-start_up (λ wire journal. (wire ≡ w.wire) × (journal ≡ w.journal_file)) p args
              record' key file)
            (λ w' h. h) (λ r w' h. h) (λ e w' h. inl (h.0)))
          λ r. given λ facts. elim (Bool-cases args.send) [
            | inl sends ↦ record {
              at = λ w' h. always (rest r w') (
                IsAuthorised-MaySend args sends facts.1,
                (
                  sym (h.0.1) ∙ h.1 sends,
                  facts.2,
                  facts.3,
                  load_active_config-IsActive p record' file facts.2 facts.3,
                ),
              );
            }
            | inr dry ↦
                weaken
                  (Keeps-rest (λ _ wire. wire ≡ w.wire) r
                    (Keeps-process_snapshot (λ _ wire. wire ≡ w.wire) p r (λ sends. cc)))
                  (λ w' h. h.0.0) (λ _ w' h. inl h) (λ _ w' h. inl h)
          ]).at
        w (refl, refl)

  -- If the process has sent nothing before, then however the run ends, the nonces of its signed
  -- writes are decimal numbers that fall strictly, the latest first: none is used twice.
  pub run_with_identity-NoncesBelow :
      w.wire ≡ []
      → Ends
          (λ _ w'. (n : ℕ) × NoncesBelow n w'.wire)
          (λ _ w'. (n : ℕ) × NoncesBelow n w'.wire)
          (run_with_identity p args record' key file pauses w)
  unfolding run_with_identity rest ◌>>=◌
  run_with_identity-NoncesBelow unsent =
      (bind _
          (weaken (Triple-start_up (λ wire journal. wire ≡ []) p args record' key file) (λ w' h. h)
            (λ r w' h. h) (λ e w' h. (0, rw (h) tt)))
          λ r.
            weaken
              (Keeps-rest (NoncesUsed r.room) r
                (Keeps-process_snapshot (NoncesUsed r.room) p r (λ _. Keeps-send_text p r)))
              (λ w' h. rw (h.0.0) tt) (λ _ w' h. (_, h)) (λ _ w' h. (_, h))).at
        w unsent
