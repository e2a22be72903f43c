-- ===== src/Audit/Log.antt =====
-- `SignedAuditLog` of audit.py: append to the file and verify it.
use technocore_safe_agent.Base.{
  ℕ, zero, suc, ◌+◌, String, Bool, true, false, ◌&&◌, Option, none, some, List, [], ◌∷◌, ◌++◌, ◌==◌,
  string_eq, leb, length, not, Result, ok, err, audit_error, protocol_value_as, if◌then◌else◌,
}
use technocore_safe_agent.Json.{Value, Fields, str, obj, end, field}
use technocore_safe_agent.Crypto.{validate_did, did_from_private_key, sign_detached}
use technocore_safe_agent.Crypto.Library.{Primitives, PrivateKey}
use technocore_safe_agent.World.{World, ByteFile, next_or, others}
use technocore_safe_agent.Exec.{
  Exec, Done, pure, raise, lift, gets, modify, try_except, os_error_as, os_call, require, ◌>>=◌,
  ◌>>◌,
}
use technocore_safe_agent.Audit.{
  AuditEntry, AuditSummary, payload_of, validate_payload, entry_hash, verify_bytes, sha256_pattern,
}

-- An OSError of these calls is raised as an AuditError.
unfoldable pub guarded : Done → Done
unfolding ◌>>=◌
guarded m = try_except m (λ error. raise (os_error_as audit_error error))

-- The arguments of `append` that describe the message, its decision and its outcome.
pub record Observation : Type 0 where
  pub input_sequence : ℕ
  pub sender_fingerprint : Option String
  pub sender_authenticated : Bool
  pub policy_decision : String
  pub policy_reason : String
  pub outcome : String
  pub receipt_sha256 : Option String
  pub response_sequence : Option ℕ

unfoldable pub entry_for : AuditSummary → String → String → Observation → AuditEntry
entry_for summary issuer observed_at o = record {
  audit_sequence = summary.entries + 1;
  issuer = issuer;
  observed_at = observed_at;
  input_sequence = o.input_sequence;
  sender_fingerprint = o.sender_fingerprint;
  sender_authenticated = o.sender_authenticated;
  policy_decision = o.policy_decision;
  policy_reason = o.policy_reason;
  outcome = o.outcome;
  receipt_sha256 = o.receipt_sha256;
  response_sequence = o.response_sequence;
  previous_entry_sha256 = summary.head_sha256;
}

abbrev pub max_audit_bytes : ℕ
max_audit_bytes = 16_777_216

unfoldable pub take_datetime : Exec String
unfolding ◌>>=◌
take_datetime = do
  observed_at ← gets (λ w. next_or "" w.datetimes)
  modify (λ w. record w { datetimes = others w.datetimes })
  pure observed_at

-- The file after `os.open` with O_CREAT and mode 0600.
abbrev pub opened : Option ByteFile → ByteFile
opened none = record { is_regular = true; is_private = true; bytes = [] }
opened (some file) = file

abbrev pub set_audit : ByteFile → World → World
set_audit file w = record w { audit_file = some file }

abbrev pub append_bytes : List ℕ → World → World
append_bytes bs w =
    let file = opened w.audit_file in
    record w { audit_file = some (record file { bytes = file.bytes ++ bs }) }

-- payload[:n] and payload[n:]
unfoldable pub split_at : ℕ → List ℕ → List ℕ × List ℕ
split_at zero bs = ([], bs)
split_at (suc n) [] = ([], [])
split_at (suc n) (b ∷ bs) = let (front, rest) = split_at n bs in (b ∷ front, rest)

abbrev pub is_empty : List ℕ → Bool
is_empty [] = true
is_empty (_ ∷ _) = false

unfoldable pub take_write : List ℕ → Exec (List ℕ × List ℕ)
unfolding ◌>>=◌ split_at
take_write remaining = do
  taken ← gets (λ w. next_or (length remaining) w.writes)
  modify (λ w. record w { writes = others w.writes })
  pure (split_at taken remaining)

-- `_write_all`. A round that writes nothing raises, and any other shortens the rest, so as many
-- rounds as there are bytes are enough.
unfoldable pub write_all : ℕ → List ℕ → Done
unfolding os_call take_write
write_all zero remaining = pure tt
write_all (suc fuel) remaining =
    let round = do
      os_call
      parts ← take_write remaining
      require (not (is_empty parts.0)) audit_error
      modify (append_bytes parts.0)
      write_all fuel parts.1
    in if is_empty remaining then pure tt else round

-- The checks of `_locked_descriptor` on an open file.
unfoldable pub check_open : ByteFile → Done
unfolding os_call ◌>>=◌
check_open file = do
  -- fstat
  os_call
  require file.is_regular audit_error
  require file.is_private audit_error
  -- flock
  os_call

unfoldable pub read_bounded : ByteFile → Exec (List ℕ)
unfolding os_call ◌>>=◌
read_bounded file = do
  -- lseek, read
  os_call
  require (leb (length file.bytes) max_audit_bytes) audit_error
  pure file.bytes

abbrev pub may_extend : Option String → String → Bool
may_extend none issuer = true
may_extend (some owner) issuer = owner == issuer

module _ (p : Primitives) where
  unfoldable pub wrapper_for : PrivateKey → Fields → Result Value
  wrapper_for key payload =
      let canonical_payload = p.canonical_json (obj payload) in
      elim (sign_detached p key canonical_payload) [
        | err e ↦ err e
        | ok signature ↦ ok (
            obj (
              field "payload" (obj payload) (
                field "payload_sha256" (str (p.sha256 canonical_payload))
                  (field "signature" (str signature) end))))
      ]

  -- The body of the `with` block.
  unfoldable pub append_locked : String → PrivateKey → String → Observation → Exec Value
  unfolding check_open read_bounded write_all wrapper_for entry_for
  append_locked issuer key observed_at o = do
    -- open
    os_call
    file ← gets (λ w. opened w.audit_file)
    modify (set_audit file)
    check_open file
    raw ← read_bounded file
    summary ← lift (verify_bytes p raw)
    require (may_extend summary.issuer issuer) audit_error
    let payload = payload_of (entry_for summary issuer observed_at o)
    validated ← lift (validate_payload p payload)
    wrapper ← lift (wrapper_for key payload)
    let rendered = p.canonical_json wrapper ++ 10 ∷ []
    require (leb (length rendered) 16_384) audit_error
    require (leb (length raw + length rendered) max_audit_bytes) audit_error
    write_all (length rendered) rendered
    -- fsync
    os_call
    pure wrapper

  -- `append` with the formatted `observed_at`.
  unfoldable pub append : String → PrivateKey → String → Observation → Exec String
  unfolding append_locked guarded
  append issuer_did key observed_at o = do
    valid_issuer ← lift (protocol_value_as audit_error (validate_did issuer_did))
    derived ← lift (did_from_private_key key)
    require (derived == valid_issuer) audit_error
    -- mkdir
    guarded os_call
    wrapper ←
        try_except (append_locked valid_issuer key observed_at o)
          (λ error. raise (os_error_as audit_error error))
    -- open and fsync of the directory
    guarded os_call
    guarded os_call
    pure (entry_hash p wrapper)

  abbrev pub same_head : Option String → AuditSummary → Bool
  same_head none summary = true
  same_head (some expected) summary = sha256_pattern expected && summary.head_sha256 == expected

  unfoldable pub verify_file : Option String → Option ByteFile → Exec AuditSummary
  unfolding check_open read_bounded
  verify_file expected_head none = raise audit_error
  verify_file expected_head (some file) = do
    raw ←
        try_except (do os_call; check_open file; read_bounded file)
          (λ error. raise (os_error_as audit_error error))
    summary ← lift (verify_bytes p raw)
    require (same_head expected_head summary) audit_error
    pure summary

  -- `verify`
  unfoldable pub verify : Option String → Exec AuditSummary
  unfolding verify_file
  verify expected_head = do file ← gets (λ w. w.audit_file); verify_file expected_head file
