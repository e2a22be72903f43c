-- ===== src/WorkReceipt/Issue.antt =====
-- work_receipt.py: a work receipt is created after an execution in a clean checkout, and countersigned
-- after an independent one that shows the same.
use technocore_safe_agent.Base.{
  ℕ, String, Bool, true, false, ◌&&◌, not, Option, none, some, ◌==◌, nat_eq, string_eq, any,
  if◌then◌else◌, Result, ok, err, work_receipt_error, protocol_value_as, require, ◌>>=◌, ◌>>◌,
}
use technocore_safe_agent.Json.{
  Value, Items, Fields, bool, int, float, str, list, obj, nil, cons, end, field, items, get, nat,
  is_text, optional,
}
use technocore_safe_agent.Json.Int.{ℤ, pos, negsuc}
use technocore_safe_agent.Crypto.{validate_did, did_from_private_key, sign_detached}
use technocore_safe_agent.Crypto.Library.{Primitives, PrivateKey}
use technocore_safe_agent.WorkReceipt.{
  work_receipt_schema, envelope_schema, countersignature_schema, is_null, validate_work_payload,
}
use technocore_safe_agent.WorkReceipt.Envelope.{verify_envelope, execution_sha256}
use technocore_safe_agent.WorkReceipt.Run.{
  Checkout, Execution, GitAnswers, Run, inspect_checkout, execute,
}

-- What happens around one receipt: the checkout before, the execution, the checkout after.
pub record Scene : Type 0 where
  pub before : GitAnswers
  pub run : Run
  pub after : GitAnswers

unfoldable pub work_payload : String → Checkout → Value → ℕ → Execution → Fields
work_payload issuer checkout command timeout_ms e = field "schema" (str work_receipt_schema) (
    field "issuer" (str issuer) (
      field "repository" (str checkout.repository) (
        field "commit" (str checkout.commit) (
          field "command" command (
            field "timeout_ms" (nat timeout_ms) (
              field "result" (str e.result) (
                field "exit_code" (optional int e.exit_code) (
                  field "stdout_sha256" (str e.stdout_sha256) (
                    field "stdout_bytes" (nat e.stdout_bytes) (
                      field "stderr_sha256" (str e.stderr_sha256) (
                        field "stderr_bytes" (nat e.stderr_bytes) (
                          field "started_at" (str e.started_at) (
                            field "completed_at" (str e.completed_at)
                              (field "duration_ms" (nat e.duration_ms) end))))))))))))))

unfoldable pub envelope_of : Value → Items → Fields
envelope_of receipt countersignatures =
    field "schema" (str envelope_schema)
      (field "receipt" receipt (field "countersignatures" (list countersignatures) end))

abbrev pub snoc : Items → Value → Items
snoc nil value = cons value nil
snoc (cons first rest) value = cons first (snoc rest value)

-- list(value), of a value that has been found to be a list
abbrev pub items_of : Value → Items
items_of (list values) = values
items_of _ = nil

abbrev pub value_of : Value → Fields
value_of (obj fields) = fields
value_of _ = end

-- verifier_did in {item["payload"]["verifier"] for item in envelope["countersignatures"]}
unfoldable pub is_countersigned_by : String → Value → Bool
unfolding get
is_countersigned_by did countersignatures =
    any (λ item. is_text did (get "verifier" (value_of (get "payload" (value_of item)))))
      (items (items_of countersignatures))

unfoldable pub int_equal : ℤ → ℤ → Bool
int_equal (pos m) (pos n) = m == n
int_equal (negsuc m) (negsuc n) = m == n
int_equal _ _ = false

-- Python's `==` of an exit code and a JSON value: False equals 0 and True equals 1.
unfoldable pub exit_equal : Option ℤ → Value → Bool
unfolding int_equal
exit_equal none value = is_null value
exit_equal (some code) (int n) = int_equal code n
exit_equal (some code) (float (some n)) = int_equal code n
exit_equal (some code) (bool b) = int_equal code (if b then pos 1 else pos 0)
exit_equal (some code) value = false

abbrev pub is_nat : ℕ → Value → Bool
is_nat n (int (pos m)) = n == m
is_nat n _ = false

-- observed == _execution_claim(summary.payload): the other fields are the claim's own
unfoldable pub is_same_execution : Execution → Fields → Bool
unfolding get exit_equal
is_same_execution e payload =
    is_text e.result (get "result" payload)
    && exit_equal e.exit_code (get "exit_code" payload)
    && is_text e.stdout_sha256 (get "stdout_sha256" payload)
    && is_nat e.stdout_bytes (get "stdout_bytes" payload)
    && is_text e.stderr_sha256 (get "stderr_sha256" payload)
    && is_nat e.stderr_bytes (get "stderr_bytes" payload)

abbrev pub or_work_receipt_error {ℓ} : {A : Type ℓ} → Option A → Result A
or_work_receipt_error none = err work_receipt_error
or_work_receipt_error (some a) = ok a

-- Texts and numbers of a payload that has been checked.
abbrev pub text_of : Value → Result String
text_of (str s) = ok s
text_of _ = err work_receipt_error

module _ (p : Primitives) where
  open p use {sha256, canonical_json}

  -- `_signed_wrapper`
  unfoldable pub signed_wrapper : PrivateKey → Fields → Result Value
  signed_wrapper key payload = do
    let canonical = canonical_json (obj payload)
    signature ← sign_detached p key canonical
    ok (
        obj (
          field "payload" (obj payload) (
            field "payload_sha256" (str (sha256 canonical))
              (field "signature" (str signature) end))))

  -- The DID is valid and that of the key; an IdentityError is raised as it is.
  unfoldable pub check_signer : PrivateKey → String → Result (Unit {0})
  check_signer key did = do
    protocol_value_as work_receipt_error (validate_did did)
    own_did ← did_from_private_key key
    require (own_did == did) work_receipt_error

  -- The execution between two inspections of the same clean checkout.
  unfoldable pub observe : Checkout → Value → Scene → Result Execution
  observe checkout command scene = do
    execution ← execute p command scene.run
    after ← inspect_checkout p (some (checkout.commit)) scene.after
    require (after.repository == checkout.repository) work_receipt_error
    ok execution

  -- Without an output directory. `timeout_ms` is what `_timeout_milliseconds` returns; it is none
  -- where that raises.
  unfoldable pub create_work_receipt :
      Value → String → PrivateKey → Option ℕ → Scene → Result Fields
  unfolding check_signer observe work_payload envelope_of signed_wrapper
  create_work_receipt command issuer_did key timeout scene = do
    check_signer key issuer_did
    checkout ← inspect_checkout p none scene.before
    timeout_ms ← or_work_receipt_error timeout
    execution ← observe checkout command scene
    let payload = work_payload issuer_did checkout command timeout_ms execution
    validate_work_payload p payload
    receipt ← signed_wrapper key payload
    let envelope = envelope_of receipt nil
    verify_envelope p envelope
    ok envelope

  unfoldable pub counter_payload : String → String → String → String → Fields
  counter_payload verifier receipt_hash execution_hash observed_at =
      field "schema" (str countersignature_schema) (
        field "verifier" (str verifier) (
          field "receipt_payload_sha256" (str receipt_hash) (
            field "execution_sha256" (str execution_hash)
              (field "observed_at" (str observed_at) end))))

  -- `timeout` is none where the argument is None, else what `_timeout_milliseconds` returns.
  unfoldable pub is_same_timeout : Option ℕ → Value → Bool
  is_same_timeout none value = true
  is_same_timeout (some timeout_ms) value = is_nat timeout_ms value

  -- `countersign_work_receipt` of a decoded envelope. `observed_at` is the clock's formatted text.
  unfoldable pub countersign_work_receipt :
      Fields → String → PrivateKey → Option ℕ → Scene → String → Result Fields
  unfolding get check_signer is_countersigned_by is_same_timeout observe is_same_execution
      counter_payload signed_wrapper envelope_of
  countersign_work_receipt envelope verifier_did key timeout scene observed_at = do
    summary ← verify_envelope p envelope
    check_signer key verifier_did
    require (not (is_text verifier_did (get "issuer" summary.payload))) work_receipt_error
    require (not (is_countersigned_by verifier_did (get "countersignatures" envelope)))
        work_receipt_error
    require (is_same_timeout timeout (get "timeout_ms" summary.payload)) work_receipt_error
    commit ← text_of (get "commit" summary.payload)
    checkout ← inspect_checkout p (some commit) scene.before
    require (is_text checkout.repository (get "repository" summary.payload)) work_receipt_error
    execution ← observe checkout (get "command" summary.payload) scene
    require (is_same_execution execution summary.payload) work_receipt_error
    let receipt = get "receipt" envelope
    receipt_hash ← text_of (get "payload_sha256" (value_of receipt))
    let execution_hash = execution_sha256 p summary.payload
    counter ←
        signed_wrapper key (counter_payload verifier_did receipt_hash execution_hash observed_at)
    let updated = envelope_of receipt (snoc (items_of (get "countersignatures" envelope)) counter)
    verify_envelope p updated
    ok updated
