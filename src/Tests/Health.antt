-- ===== src/Tests/Health.antt =====
-- A provisioned instance that is ready, and the run of its inspection.
use technocore_safe_agent.Base.{true, false, none, some, [], ◌∷◌, ok, refl, ◌≡◌}
use technocore_safe_agent.Base.Dict.{lookup, insert}
use technocore_safe_agent.Json.{
  Value, obj, str, end, field, nat, get, has, keys_are, member_of, nonnegative, positive,
}
use technocore_safe_agent.Crypto.{
  strip, validate_did, did_pattern, validate_room, room_pattern, validate_nonce, nonce_pattern,
  fingerprint_of_did, sha256_text,
}
use technocore_safe_agent.Crypto.Chars.{
  strip_prefix, rstrip, lstrip, is_base58, is_room_start, is_room_char, prefix_of,
}
use technocore_safe_agent.Crypto.Decimal.{parse}
use technocore_safe_agent.Github.{is_alnum}
use technocore_safe_agent.Protocol.BaseUrl.{validate_base_url, is_base_url}
use technocore_safe_agent.State.Payload.{
  from_payload, nonnegative_int_map, number_fields, capability_request_map, history_fields,
}
use technocore_safe_agent.State.Store.{load, load_file}
use technocore_safe_agent.Capabilities.{parse_policy, parse_principals}
use technocore_safe_agent.Capabilities.Limiter
use technocore_safe_agent.World.{World, written, json_of}
use technocore_safe_agent.Exec.{os_call, ◌>>=◌}
use technocore_safe_agent.Config.{
  holds, read_json, are_config_fields, provisioned_seq_of, load_identity, validate, load_config,
}
use technocore_safe_agent.Config.Health.{
  Disk, missing, found, unopened, HealthReport, path_present, require_private_regular,
  state_problems, judge_state,
}
use technocore_safe_agent.Config.Health.Checks.{
  judge_config, identity_check, config_check, state_check, capability_check, delivery_check,
  audit_check, process_lock_status, process_check,
}
use technocore_safe_agent.Config.Health.Report.{verdict, report_of, inspect_operational_health}
use technocore_safe_agent.Tests.Data.{own_did, world}
use technocore_safe_agent.Tests.Receipts.{github}

abbrev identity : Value
identity = obj (
    field "did" (str own_did) (
      field "fingerprint" (str "0000000000000000") (
        field "custody"
          (obj (
            field "backend" (str "macos-keychain")
              (field "service" (str "technocore") (field "account" (str "agent") end))))
          end)))

abbrev config : Value
config = obj (
    field "schema" (str "technocore-safe-agent-config-v1") (
      field "name" (str "agent") (
        field "did" (str own_did) (
          field "fingerprint" (str "0000000000000000") (
            field "room" (str "lobby") (
              field "base_url" (str "https://github.com") (
                field "status" (str "active") (
                  field "created_at" (str "today") (
                    field "provision_nonce" (str "4") (field "provisioned_seq" (nat 1) end))))))))))

abbrev state : Value
state = obj (
    field "schema" (str "technocore-safe-agent-state-v1") (
      field "cursors" (obj (field "lobby" (nat 1) end))
        (field "nonces" (obj (field "lobby" (nat 5) end)) end)))

abbrev policy : Value
policy = obj (
    field "schema" (str "technocore-safe-agent-capabilities-v1") (field "principals" (obj end) end))

abbrev pub disk : Disk
disk = record {
  identity = holds identity;
  config_looks = record { first = found true true true; second = found true true true };
  config = holds config;
  state_looks = record { first = found true true true; second = found true true true };
  journal_looks = record { first = missing; second = missing };
  audit_looks = record { first = missing; second = missing };
  lock = missing;
  lock_opening = unopened;
}

abbrev pub provisioned : World
provisioned = record world {
  state_file = some (written state);
  policy_files = some (written policy) ∷ [];
}

abbrev report : HealthReport
report = record {
  status = "ready";
  exit_code = 0;
  checks =
      ("identity", "valid")
      ∷ ("config", "active")
      ∷ ("state", "valid")
      ∷ ("capability_policy", "valid_no_enabled_grants")
      ∷ ("delivery", "clear")
      ∷ ("audit", "not_created")
      ∷ ("process", "stopped")
      ∷ [];
  problems = [];
}

pub inspect_run : (inspect_operational_health github disk none false provisioned).0 ≡ ok report
unfolding inspect_operational_health github identity_check config_check state_check capability_check
    delivery_check audit_check process_check report_of verdict process_lock_status path_present
    require_private_regular judge_config judge_state state_problems load load_file json_of
    from_payload nonnegative_int_map number_fields nonnegative lookup insert capability_request_map
    history_fields get has keys_are member_of positive load_identity load_config read_json
    are_config_fields validate provisioned_seq_of validate_did did_pattern validate_room
    room_pattern validate_nonce nonce_pattern fingerprint_of_did sha256_text prefix_of strip_prefix
    rstrip lstrip strip is_base58 is_room_start is_room_char parse is_alnum validate_base_url
    is_base_url Limiter.load Limiter.take_policy_file Limiter.read_policy parse_policy
    parse_principals ◌>>=◌ os_call
inspect_run = refl
