-- ===== src/Cli/Run.antt =====
-- The `run` command of cli.py, from its checks to the poll loop. The identity and its key have been
-- loaded.
use technocore_safe_agent.Base.{
  String, Bool, true, false, ◌&&◌, not, Option, none, some, List, [], ◌==◌, string_eq, leb,
  if◌then◌else◌, protocol_value_error, audit_error, state_error,
}
use technocore_safe_agent.Base.Dict.{lookup}
use technocore_safe_agent.Crypto.{validate_did}
use technocore_safe_agent.Crypto.Library.{Primitives, PrivateKey}
use technocore_safe_agent.State.Store as Store
use technocore_safe_agent.World.{ByteFile}
use technocore_safe_agent.Exec.{Exec, Done, pure, lift, gets, require, put_state, ◌>>=◌, ◌>>◌}
use technocore_safe_agent.Capabilities.{is_empty}
use technocore_safe_agent.Capabilities.Limiter as Limiter
use technocore_safe_agent.Policy.{CommandPolicy, post_init, is_some}
use technocore_safe_agent.Delivery.Journal.{require_empty}
use technocore_safe_agent.Audit.Log.{verify, may_extend}
use technocore_safe_agent.Protocol.BaseUrl.{technocore_client}
use technocore_safe_agent.Agent.{Responder, bootstrap_latest}
use technocore_safe_agent.Config.{TextFile, IdentityRecord}
use technocore_safe_agent.Cli.Target.{
  RunArgs, load_active_config, resolve_runtime_target, validated_dids,
}
use technocore_safe_agent.Cli.{Pause, Step, poll}

-- The test before `--send`.
abbrev pub is_authorised : RunArgs → List String → Bool
is_authorised args allowed = not (args.send && is_empty allowed && not args.allow_any_signed)

module _ (p : Primitives) (args : RunArgs) where
  -- `_command_policy`
  unfoldable pub command_policy : String → Exec CommandPolicy
  unfolding ◌>>=◌ Limiter.load validated_dids post_init
  command_policy own_did =
      if args.has_capability_policy
      then (do
        capabilities ← Limiter.load p
        lift (
            post_init (record {
              own_did = own_did;
              allowed_dids = [];
              allow_any_signed = false;
              has_capabilities = true;
              limiter = some args.send;
            })))
      else (do
        allowed ← lift (validated_dids args.allow_did)
        require (is_authorised args allowed) protocol_value_error
        lift (
            post_init (record {
              own_did = own_did;
              allowed_dids = allowed;
              allow_any_signed = args.allow_any_signed;
              has_capabilities = false;
              limiter = none;
            })))

  -- if audit_path.exists() and audit.verify().issuer not in {None, did}: raise
  unfoldable pub check_audit : String → Option ByteFile → Done
  unfolding ◌>>=◌ verify
  check_audit did none = pure tt
  check_audit did (some file) = do
    summary ← verify p none
    require (may_extend summary.issuer did) audit_error

  -- `_live_artifacts`: the journal and the log are used if and only if `send` is given.
  unfoldable pub live_artifacts : String → Done
  unfolding ◌>>=◌ require_empty check_audit
  live_artifacts did =
      if not args.send
      then pure tt
      else (do require_empty p; file ← gets (λ w. w.audit_file); check_audit did file)

  -- `_run_with_identity` up to its responder.
  unfoldable pub start_up : IdentityRecord → PrivateKey → Option TextFile → Exec Responder
  unfolding ◌>>=◌ load_active_config resolve_runtime_target Store.load command_policy live_artifacts
      technocore_client
  start_up record' key file = do
    config ← lift (load_active_config p record' file)
    (room, base_url) ← lift (resolve_runtime_target args config)
    state ← Store.load
    put_state state
    policy ← command_policy record'.did
    live_artifacts record'.did
    client ← lift (technocore_client p base_url args.timeout)
    -- GitHubPublicClient, then ContributionReceiptService
    require (leb 100 args.github_timeout && leb args.github_timeout 60_000) protocol_value_error
    did ← lift (validate_did record'.did)
    pure (record {
      room = room;
      did = did;
      key = key;
      client = client;
      policy = policy;
      has_receipt_service = true;
      has_journal = args.send;
      has_audit_log = args.send;
      send = args.send;
    })

  -- `_initialize_cursor`; the event of the bootstrap is not kept.
  unfoldable pub initialize_cursor : Responder → Exec Bool
  unfolding ◌>>=◌ bootstrap_latest lookup
  initialize_cursor r = do
    s ← gets (λ w. w.state)
    if is_some (lookup r.room s.cursors) then pure false else (do
      require (not (args.start_at == "saved")) state_error
      if args.start_at == "latest"
          then (do sequence ← bootstrap_latest p r; pure args.polling.once)
          else pure false)

  -- `_run_with_identity`; its result is what the poll loop prints.
  unfoldable pub run_with_identity :
      IdentityRecord → PrivateKey → Option TextFile → List Pause → Exec (List Step)
  unfolding ◌>>=◌ start_up initialize_cursor poll
  run_with_identity record' key file pauses = do
    r ← start_up record' key file
    done ← initialize_cursor r
    if done then pure [] else poll p r args.polling 1_000 pauses
