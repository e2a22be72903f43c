-- ===== src/WorkReceipt.antt =====
-- work_receipt_verifier.py: the values of a work receipt, and the checks of its payloads.
pub mod Envelope
pub mod Run
pub mod Issue
pub mod ExitCode
pub mod Repeated
pub mod Countersign
pub mod Signers
pub mod Guarantee
pub mod Attested
use technocore_safe_agent.Base.{
  ℕ, zero, suc, ◌+◌, String, Bool, true, false, ◌&&◌, ◌||◌, not, Option, none, some, List, [], ◌∷◌,
  ◌==◌, nat_eq, string_eq, length, leb, ltb, contains, if◌then◌else◌, Error, Result, ok, err,
  work_receipt_error, protocol_value_as, require, ◌>>=◌, ◌>>◌,
}
use technocore_safe_agent.Json.{
  Value, Fields, null, bool, int, float, str, list, obj, end, field, items, get, keys_are, is_text,
  nonnegative,
}
use technocore_safe_agent.Json.Int.{pos, negsuc}
use technocore_safe_agent.Crypto.{validate_did}
use technocore_safe_agent.Crypto.Chars.{codes}
use technocore_safe_agent.Crypto.Library.{Primitives}
use technocore_safe_agent.Github.{owner_pattern, valid_repository}
use technocore_safe_agent.Github.Url.{split_slash}
use technocore_safe_agent.Delivery.{sha256_pattern}
use technocore_safe_agent.Receipt.{sha_pattern, timestamp}

abbrev pub work_receipt_schema : String
work_receipt_schema = "work-receipt-v1"

abbrev pub envelope_schema : String
envelope_schema = "work-receipt-envelope-v1"

abbrev pub countersignature_schema : String
countersignature_schema = "work-receipt-countersignature-v1"

abbrev pub max_output_bytes : ℕ
max_output_bytes = 16_777_216

abbrev pub max_receipt_bytes : ℕ
max_receipt_bytes = 131_072

abbrev pub work_payload_keys : List String
work_payload_keys =
    "schema" ∷ "issuer" ∷ "repository" ∷ "commit" ∷ "command" ∷ "timeout_ms" ∷ "result"
    ∷ "exit_code" ∷ "stdout_sha256" ∷ "stdout_bytes" ∷ "stderr_sha256" ∷ "stderr_bytes"
    ∷ "started_at" ∷ "completed_at" ∷ "duration_ms" ∷ []

abbrev pub countersignature_payload_keys : List String
countersignature_payload_keys =
    "schema" ∷ "verifier" ∷ "receipt_payload_sha256" ∷ "execution_sha256" ∷ "observed_at" ∷ []

-- `_require_sha256`
unfoldable pub require_sha256 : Value → Result String
require_sha256 (str s) = if sha256_pattern s then ok s else err work_receipt_error
require_sha256 _ = err work_receipt_error

-- `_require_nonnegative_int`
unfoldable pub require_nonnegative_int : ℕ → Value → Result ℕ
unfolding nonnegative
require_nonnegative_int maximum value = elim (nonnegative value) [
  | none ↦ err work_receipt_error
  | some n ↦ if leb n maximum then ok n else err work_receipt_error
]

-- `_validate_repository`: one slash, and what stands on either side of it.
abbrev pub repository_parts : String → List String → Result String
repository_parts value (owner ∷ repository ∷ []) =
    if owner_pattern owner && valid_repository repository then ok value else err work_receipt_error
repository_parts value _ = err work_receipt_error

unfoldable pub validate_repository : Value → Result String
unfolding split_slash
validate_repository (str value) = repository_parts value (split_slash value)
validate_repository _ = err work_receipt_error

-- GIT_SHA_PATTERN is SHA_PATTERN of receipt.py.
unfoldable pub commit_of : Value → Result String
commit_of (str s) = if sha_pattern s then ok s else err work_receipt_error
commit_of _ = err work_receipt_error

-- `validate_did` refuses what is no str.
abbrev pub did_of : Value → Result String
did_of (str s) = protocol_value_as work_receipt_error (validate_did s)
did_of _ = err work_receipt_error

-- exit_code == 0: False and 0.0 equal 0 in Python
unfoldable pub equals_zero : Value → Bool
equals_zero (int (pos n)) = n == 0
equals_zero (bool b) = not b
equals_zero (float (some (pos n))) = n == 0
equals_zero _ = false

-- an int that is not 0, from -255 to 255
unfoldable pub is_failure_code : Value → Bool
is_failure_code (int (pos n)) = not (n == 0) && leb n 255
is_failure_code (int (negsuc n)) = leb (n + 1) 255
is_failure_code _ = false

abbrev pub is_null : Value → Bool
is_null null = true
is_null _ = false

-- The exit code that goes with each result.
unfoldable pub has_exit_code : Value → Value → Bool
unfolding equals_zero is_failure_code
has_exit_code (str result) exit_code =
    if result == "passed"
    then equals_zero exit_code
    else if result == "failed"
    then is_failure_code exit_code
    else result == "timed_out" && is_null exit_code
has_exit_code _ exit_code = false

-- What a countersignature says.
pub record Countersignature : Type 0 where
  pub verifier : String
  pub receipt_payload_sha256 : String
  pub execution_sha256 : String
  pub observed_at : ℕ

module _ (p : Primitives) where
  -- `_parse_timestamp`
  unfoldable pub parse_timestamp : Value → Result ℕ
  parse_timestamp (str s) = elim (timestamp p s) [
    | none ↦ err work_receipt_error
    | some seconds ↦ ok seconds
  ]
  parse_timestamp _ = err work_receipt_error

  -- One argument: its size in bytes. Only the first may not be empty.
  unfoldable pub argument_size : Bool → Value → Result ℕ
  argument_size is_first (str argument) =
      let size = length (p.utf8 argument) in
      if contains (codes argument) 0 || ltb 4096 size || is_first && size == 0
      then err work_receipt_error
      else ok size
  argument_size is_first _ = err work_receipt_error

  unfoldable pub total_size : Bool → List Value → Result ℕ
  unfolding argument_size
  total_size is_first [] = ok 0
  total_size is_first (argument ∷ arguments) = do
    size ← argument_size is_first argument
    rest ← total_size false arguments
    ok (size + rest)

  -- `_validate_command`
  unfoldable pub validate_command : Value → Result (List Value)
  unfolding total_size
  validate_command (list command) = do
    let normalized = items command
    require (leb 1 (length normalized) && leb (length normalized) 64) work_receipt_error
    total ← total_size true normalized
    require (leb total 16_384) work_receipt_error
    ok normalized
  validate_command _ = err work_receipt_error

  -- `_validate_work_payload`; the results are the issuer and the time of completion.
  unfoldable pub validate_work_payload : Fields → Result (String × ℕ)
  unfolding get keys_are has_exit_code parse_timestamp validate_command
  validate_work_payload payload = do
    require
        (keys_are work_payload_keys payload && is_text work_receipt_schema (get "schema" payload))
        work_receipt_error
    issuer ← did_of (get "issuer" payload)
    validate_repository (get "repository" payload)
    commit_of (get "commit" payload)
    validate_command (get "command" payload)
    timeout_ms ← require_nonnegative_int 3_600_000 (get "timeout_ms" payload)
    require (not (timeout_ms == 0)) work_receipt_error
    require (has_exit_code (get "result" payload) (get "exit_code" payload)) work_receipt_error
    require_sha256 (get "stdout_sha256" payload)
    require_sha256 (get "stderr_sha256" payload)
    require_nonnegative_int max_output_bytes (get "stdout_bytes" payload)
    require_nonnegative_int max_output_bytes (get "stderr_bytes" payload)
    started ← parse_timestamp (get "started_at" payload)
    completed ← parse_timestamp (get "completed_at" payload)
    require (leb started completed) work_receipt_error
    require_nonnegative_int 3_700_000 (get "duration_ms" payload)
    ok (issuer, completed)

  -- `_validate_countersignature_payload`, with the checked values
  unfoldable pub validate_countersignature_payload : Fields → Result Countersignature
  unfolding get keys_are parse_timestamp
  validate_countersignature_payload payload = do
    require
        (keys_are countersignature_payload_keys payload
          && is_text countersignature_schema (get "schema" payload))
        work_receipt_error
    verifier ← did_of (get "verifier" payload)
    receipt_hash ← require_sha256 (get "receipt_payload_sha256" payload)
    execution_hash ← require_sha256 (get "execution_sha256" payload)
    observed_at ← parse_timestamp (get "observed_at" payload)
    ok (record {
      verifier = verifier;
      receipt_payload_sha256 = receipt_hash;
      execution_sha256 = execution_hash;
      observed_at = observed_at;
    })
