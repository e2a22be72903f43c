-- ===== src/Audit.antt =====
-- The chain of audit records: the checks of audit.py, from bytes to a summary.
pub mod Log
pub mod Frame
pub mod Writes
use technocore_safe_agent.Base.{
  ℕ, zero, suc, ◌+◌, String, Bool, true, false, ◌&&◌, ◌||◌, not, Option, none, some, List, [], ◌∷◌,
  ◌==◌, nat_eq, string_eq, option_eq, leb, ltb, length, last, every, contains, if◌then◌else◌,
  Result, ok, err, audit_error, protocol_value_as, require, ◌>>=◌, ◌>>◌,
}
use technocore_safe_agent.Json.{
  is_text, Value, Fields, null, bool, int, str, obj, end, field, get, keys_are, nat, positive,
  optional, member_of,
}
use technocore_safe_agent.Crypto.{validate_did, verify_detached_signature}
use technocore_safe_agent.Crypto.Chars.{codes, is_hex, is_lower, is_digit, is_urlsafe}
use technocore_safe_agent.Crypto.Library.{Primitives}
use technocore_safe_agent.Protocol.Request.{canonical_signature}
use technocore_safe_agent.Delivery.{sha256_pattern}

pub record AuditSummary : Type 0 where
  pub entries : ℕ
  pub issuer : Option String
  pub head_sha256 : String

-- What one record says.
pub record AuditEntry : Type 0 where
  pub audit_sequence : ℕ
  pub issuer : String
  pub observed_at : String
  pub input_sequence : ℕ
  pub sender_fingerprint : Option String
  pub sender_authenticated : Bool
  pub policy_decision : String
  pub policy_reason : String
  pub outcome : String
  pub receipt_sha256 : Option String
  pub response_sequence : Option ℕ
  pub previous_entry_sha256 : String

abbrev pub genesis_hash : String
genesis_hash = "0000000000000000000000000000000000000000000000000000000000000000"

abbrev pub audit_schema : String
audit_schema = "technocore-safe-agent-audit-v1"

abbrev pub payload_keys : List String
payload_keys =
    "schema" ∷ "audit_sequence" ∷ "issuer" ∷ "observed_at" ∷ "input_sequence" ∷ "sender_fingerprint"
    ∷ "sender_authenticated" ∷ "policy_decision" ∷ "policy_reason" ∷ "outcome" ∷ "receipt_sha256"
    ∷ "response_sequence" ∷ "previous_entry_sha256" ∷ []

-- The payload that `append` builds.
unfoldable pub payload_of : AuditEntry → Fields
payload_of e = field "schema" (str audit_schema) (
    field "audit_sequence" (nat e.audit_sequence) (
      field "issuer" (str e.issuer) (
        field "observed_at" (str e.observed_at) (
          field "input_sequence" (nat e.input_sequence) (
            field "sender_fingerprint" (optional str e.sender_fingerprint) (
              field "sender_authenticated" (bool e.sender_authenticated) (
                field "policy_decision" (str e.policy_decision) (
                  field "policy_reason" (str e.policy_reason) (
                    field "outcome" (str e.outcome) (
                      field "receipt_sha256" (optional str e.receipt_sha256) (
                        field "response_sequence" (optional nat e.response_sequence) (
                          field "previous_entry_sha256" (str e.previous_entry_sha256)
                            end))))))))))))

abbrev pub or_audit_error {ℓ} : {A : Type ℓ} → Option A → Result A
or_audit_error none = err audit_error
or_audit_error (some a) = ok a

-- A str that satisfies a test, and any other value refused.
abbrev pub text_such_that : (String → Bool) → Value → Result String
text_such_that p (str s) = if p s then ok s else err audit_error
text_such_that p _ = err audit_error

abbrev pub did_of : Value → Result String
did_of (str s) = protocol_value_as audit_error (validate_did s)
did_of _ = err audit_error

-- FINGERPRINT_PATTERN.fullmatch: [0-9a-f]{16}
unfoldable pub fingerprint_pattern : String → Bool
fingerprint_pattern s = let cs = codes s in length cs == 16 && every is_hex cs

-- TOKEN_PATTERN.fullmatch: [a-z][a-z0-9_]{0,63}
abbrev pub token_codes : List ℕ → Bool
token_codes [] = false
token_codes (c ∷ cs) =
    is_lower c && leb (length cs) 63 && every (λ d. is_lower d || is_digit d || d == b'_') cs

unfoldable pub token_pattern : String → Bool
token_pattern s = token_codes (codes s)

unfoldable pub bool_of : Value → Result Bool
bool_of (bool b) = ok b
bool_of _ = err audit_error

abbrev pub fingerprint_of : Bool → Value → Result (Unit {0})
fingerprint_of true value = do text_such_that fingerprint_pattern value; ok tt
fingerprint_of false null = ok tt
fingerprint_of false _ = err audit_error

-- `_validate_sender`
unfoldable pub validate_sender : Fields → Result (Unit {0})
unfolding get bool_of
validate_sender payload = do
  authenticated ← bool_of (get "sender_authenticated" payload)
  fingerprint_of authenticated (get "sender_fingerprint" payload)

abbrev pub is_absent {ℓ} : {A : Type ℓ} → Option A → Bool
is_absent none = true
is_absent (some _) = false

-- The disjunction of `_validate_outcome`.
unfoldable pub consistent : String → String → Option String → Option ℕ → Bool
consistent decision outcome receipt_hash response_sequence =
    decision == "ignore"
      && outcome == "ignore"
      && is_absent receipt_hash
      && is_absent response_sequence
    || decision == "reply"
      && outcome == "sent"
      && is_absent receipt_hash
      && not (is_absent response_sequence)
    || decision == "receipt"
      && outcome == "receipt_failed"
      && is_absent receipt_hash
      && is_absent response_sequence
    || decision == "receipt"
      && outcome == "sent_receipt"
      && not (is_absent receipt_hash)
      && not (is_absent response_sequence)

abbrev pub optional_hash : Value → Result (Option String)
optional_hash null = ok none
optional_hash value = do hash ← text_such_that sha256_pattern value; ok (some hash)

abbrev pub optional_positive : Value → Result (Option ℕ)
optional_positive null = ok none
optional_positive value = do n ← or_audit_error (positive value); ok (some n)

abbrev pub policy_decisions : List String
policy_decisions = "ignore" ∷ "reply" ∷ "receipt" ∷ []

abbrev pub outcomes : List String
outcomes = "ignore" ∷ "sent" ∷ "receipt_failed" ∷ "sent_receipt" ∷ []

-- `_validate_decision`
unfoldable pub validate_decision : Fields → Result (Unit {0})
unfolding get positive member_of consistent token_pattern
validate_decision payload = do
  decision ← member_of audit_error policy_decisions (get "policy_decision" payload)
  text_such_that token_pattern (get "policy_reason" payload)
  outcome ← member_of audit_error outcomes (get "outcome" payload)
  receipt_hash ← optional_hash (get "receipt_sha256" payload)
  response_sequence ← optional_positive (get "response_sequence" payload)
  require (consistent decision outcome receipt_hash response_sequence) audit_error

abbrev pub has_schema : Value → Bool
has_schema (str s) = s == audit_schema
has_schema _ = false

-- `_validate_payload`; its results are the checked values that `_verify_line` reads again.
unfoldable pub validate_payload : Primitives → Fields → Result (ℕ × String × String)
unfolding get positive keys_are validate_sender validate_decision
validate_payload p payload = do
  require (keys_are payload_keys payload && has_schema (get "schema" payload)) audit_error
  audit_sequence ← or_audit_error (positive (get "audit_sequence" payload))
  or_audit_error (positive (get "input_sequence" payload))
  issuer ← did_of (get "issuer" payload)
  text_such_that p.is_timestamp (get "observed_at" payload)
  previous ← text_such_that sha256_pattern (get "previous_entry_sha256" payload)
  validate_sender payload
  validate_decision payload
  ok (audit_sequence, issuer, previous)

abbrev pub fields_of : Value → Result Fields
fields_of (obj fs) = ok fs
fields_of _ = err audit_error

-- SIGNATURE_PATTERN.fullmatch: [A-Za-z0-9_-]{85}[AQgw]
abbrev pub wrapper_signature : String → Bool
wrapper_signature s = length (codes s) == 86 && canonical_signature (codes s)

module _ (p : Primitives) where
  open p use {sha256, canonical_json, decode_json}

  -- `_entry_hash`
  unfoldable pub entry_hash : Value → String
  entry_hash wrapper = sha256 (canonical_json wrapper)

  -- `_verify_wrapper_signature`
  unfoldable pub verify_wrapper_signature : Fields → Fields → String → Result (Unit {0})
  unfolding get
  verify_wrapper_signature wrapper payload issuer = do
    let canonical_payload = canonical_json (obj payload)
    require (is_text (sha256 canonical_payload) (get "payload_sha256" wrapper)) audit_error
    signature ← text_such_that wrapper_signature (get "signature" wrapper)
    require (verify_detached_signature p issuer canonical_payload signature) audit_error

  abbrev pub same_issuer : Option String → String → Bool
  same_issuer none issuer = true
  same_issuer (some expected) issuer = issuer == expected

  -- The checks of `_verify_line` on the decoded wrapper.
  unfoldable pub verify_wrapper : ℕ → String → Option String → Value → Result (String × String)
  unfolding get keys_are validate_payload verify_wrapper_signature entry_hash
  verify_wrapper expected_sequence expected_previous_hash expected_issuer decoded = do
    wrapper ← fields_of decoded
    require (keys_are ("payload" ∷ "payload_sha256" ∷ "signature" ∷ []) wrapper) audit_error
    payload ← fields_of (get "payload" wrapper)
    checked ← validate_payload p payload
    require (checked.0 == expected_sequence) audit_error
    require (checked.2 == expected_previous_hash) audit_error
    require (same_issuer expected_issuer checked.1) audit_error
    verify_wrapper_signature wrapper payload checked.1
    ok (checked.1, entry_hash decoded)

  unfoldable pub verify_line : List ℕ → ℕ → String → Option String → Result (String × String)
  unfolding verify_wrapper
  verify_line line expected_sequence expected_previous_hash expected_issuer = do
    require (leb 1 (length line) && leb (length line) 16_384) audit_error
    decoded ← or_audit_error (decode_json line)
    verify_wrapper expected_sequence expected_previous_hash expected_issuer decoded

  -- The loop over the lines.
  unfoldable pub verify_lines : ℕ → Option String → String → List (List ℕ) → Result AuditSummary
  unfolding verify_line
  verify_lines entries issuer previous_hash [] =
      ok (record { entries = entries; issuer = issuer; head_sha256 = previous_hash })
  verify_lines entries issuer previous_hash (line ∷ lines) = do
    verified ← verify_line line (entries + 1) previous_hash issuer
    verify_lines (entries + 1) (some verified.0) verified.1 lines

abbrev pub onto_first : ℕ → List (List ℕ) → List (List ℕ)
onto_first c [] = (c ∷ []) ∷ []
onto_first c (line ∷ lines) = (c ∷ line) ∷ lines

abbrev pub begins_with_newline : List ℕ → Bool
begins_with_newline [] = false
begins_with_newline (c ∷ _) = c == 10

-- raw.splitlines() on bytes: the ends of lines are \n, \r and \r\n
unfoldable pub split_lines : List ℕ → List (List ℕ)
split_lines [] = []
split_lines (c ∷ cs) =
    let rest = split_lines cs in
    if c == 10
    then [] ∷ rest
    else if c == 13
    then (if begins_with_newline cs then rest else [] ∷ rest)
    else onto_first c rest

unfoldable pub verify_bytes : Primitives → List ℕ → Result AuditSummary
unfolding verify_lines split_lines
verify_bytes p [] = ok (record { entries = 0; issuer = none; head_sha256 = genesis_hash })
verify_bytes p (b ∷ bs) = do
  require (last (b ∷ bs) == some 10) audit_error
  verify_lines p 0 none genesis_hash (split_lines (b ∷ bs))
