-- ===== src/WorkReceipt/Attested.antt =====
-- What an accepted work receipt says: its envelope.
use mathlib.Core.Path.{subst}
use technocore_safe_agent.Base.{
  ℕ, String, ◌&&◌, not, ◌==◌, nat_eq, string_eq, leb, length, List, [], ◌∷◌, ok, work_receipt_error,
  ◌≡◌, refl, sym, ◌∙◌, arith, >>=-eq-ok, ok-injective, require,
}
use technocore_safe_agent.Json.{Fields, str, obj, get, keys_are, is_text}
use technocore_safe_agent.Crypto.Library.{Primitives}
use technocore_safe_agent.WorkReceipt.{
  did_of, require_sha256, parse_timestamp, validate_work_payload, work_payload_keys,
  work_receipt_schema, validate_repository, commit_of, validate_command, require_nonnegative_int,
  has_exit_code, max_output_bytes, envelope_schema,
}
use technocore_safe_agent.WorkReceipt.ExitCode.{SoundResult, has_exit_code-SoundResult}
use technocore_safe_agent.WorkReceipt.Signers.{
  SignedUnder, did_of-eq, verify_signed_wrapper-SignedUnder,
}
use technocore_safe_agent.WorkReceipt.Envelope.{
  Expected, WorkReceiptSummary, verify_signed_wrapper, verify_counters, countersignatures_of,
  execution_sha256, verify_envelope,
}
use technocore_safe_agent.WorkReceipt.Guarantee.{Verified, verify_counters-Verified}

-- The checked fields that the envelope's verification goes on with, and the result.
record Work (p : Primitives) (payload : Fields) (issuer : String) (completed_at : ℕ) : Type 0 where
  issuer_field : get "issuer" payload ≡ str issuer
  completed_at_field : parse_timestamp p (get "completed_at" payload) ≡ ok completed_at
  result : SoundResult (get "result" payload) (get "exit_code" payload)

validate_work_payload-Work :
    (p : Primitives) (payload : Fields) {checked : String × ℕ}
    → validate_work_payload p payload ≡ ok checked
    → Work p payload checked.0 checked.1
unfolding validate_work_payload
validate_work_payload-Work p payload {checked} h =
    let (_, _, h₁) =
      >>=-eq-ok
        (require
          (keys_are work_payload_keys payload && is_text work_receipt_schema (get "schema" payload))
          work_receipt_error)
        _ h in
    let (issuer, e₂, h₂) = >>=-eq-ok (did_of (get "issuer" payload)) _ h₁ in
    let (_, _, h₃) = >>=-eq-ok (validate_repository (get "repository" payload)) _ h₂ in
    let (_, _, h₄) = >>=-eq-ok (commit_of (get "commit" payload)) _ h₃ in
    let (_, _, h₅) = >>=-eq-ok (validate_command p (get "command" payload)) _ h₄ in
    let (timeout_ms, _, h₆) =
      >>=-eq-ok (require_nonnegative_int 3_600_000 (get "timeout_ms" payload)) _ h₅ in
    let (_, _, h₇) = >>=-eq-ok (require (not (timeout_ms == 0)) work_receipt_error) _ h₆ in
    let (_, e₈, h₈) =
      >>=-eq-ok
        (require (has_exit_code (get "result" payload) (get "exit_code" payload))
          work_receipt_error)
        _ h₇ in
    let (_, _, h₉) = >>=-eq-ok (require_sha256 (get "stdout_sha256" payload)) _ h₈ in
    let (_, _, h₁₀) = >>=-eq-ok (require_sha256 (get "stderr_sha256" payload)) _ h₉ in
    let (_, _, h₁₁) =
      >>=-eq-ok (require_nonnegative_int max_output_bytes (get "stdout_bytes" payload)) _ h₁₀ in
    let (_, _, h₁₂) =
      >>=-eq-ok (require_nonnegative_int max_output_bytes (get "stderr_bytes" payload)) _ h₁₁ in
    let (started, _, h₁₃) = >>=-eq-ok (parse_timestamp p (get "started_at" payload)) _ h₁₂ in
    let (completed, e₁₄, h₁₄) = >>=-eq-ok (parse_timestamp p (get "completed_at" payload)) _ h₁₃ in
    let (_, _, h₁₅) = >>=-eq-ok (require (leb started completed) work_receipt_error) _ h₁₄ in
    let (_, _, h₁₆) =
      >>=-eq-ok (require_nonnegative_int 3_700_000 (get "duration_ms" payload)) _ h₁₅ in
    subst (λ (c : String × ℕ). Work p payload c.0 c.1) (ok-injective h₁₆)
      (record {
        issuer_field = did_of-eq (get "issuer" payload) e₂;
        completed_at_field = e₁₄;
        result =
            has_exit_code-SoundResult (get "result" payload) (get "exit_code" payload)
              (ground arith);
      })

abbrev pub expected_of : Primitives → Fields → String → ℕ → Expected
expected_of p payload issuer completed_at = record {
  issuer = issuer;
  receipt_hash = p.sha256 (p.canonical_json (obj payload));
  execution_hash = execution_sha256 p payload;
  completed_at = completed_at;
}

pub record Attested (p : Primitives) (summary : WorkReceiptSummary) : Type 0 where
  pub issuer : String
  pub signed : SignedUnder p "issuer" summary.payload issuer
  pub result : SoundResult (get "result" summary.payload) (get "exit_code" summary.payload)
  pub completed_at : ℕ
  pub completed_at_field : parse_timestamp p (get "completed_at" summary.payload) ≡ ok completed_at
  pub verifiers : List String
  pub verified : Verified p (expected_of p summary.payload issuer completed_at) verifiers
  pub count : length verifiers ≡ summary.matching_countersignatures

str-eq : {s t : String} → str s ≡ str t → s ≡ t
str-eq h = cc

-- What `verify_envelope` accepts is signed by its issuer; its result is "passed" exactly if its exit
-- code equals zero; and as many verifiers as it counts, none named twice and none the issuer, have
-- each signed a countersignature that names the digests of this receipt and this execution, with a
-- time no earlier than the completion.
pub verify_envelope-Attested :
    (p : Primitives) (envelope : Fields) {summary : WorkReceiptSummary}
    → verify_envelope p envelope ≡ ok summary
    → Attested p summary
unfolding verify_envelope
verify_envelope-Attested p envelope h =
    let (_, _, h₁) =
      >>=-eq-ok
        (require
          (keys_are ("schema" ∷ "receipt" ∷ "countersignatures" ∷ []) envelope
            && is_text envelope_schema (get "schema" envelope))
          work_receipt_error)
        _ h in
    let (payload, e₂, h₂) =
      >>=-eq-ok (verify_signed_wrapper p "issuer" (get "receipt" envelope)) _ h₁ in
    let (checked, e₃, h₃) = >>=-eq-ok (validate_work_payload p payload) _ h₂ in
    let (counters, _, h₄) =
      >>=-eq-ok (countersignatures_of (get "countersignatures" envelope)) _ h₃ in
    let expected = expected_of p payload checked.0 checked.1 in
    let (verifiers, e₅, h₅) = >>=-eq-ok (verify_counters p expected [] counters) _ h₄ in
    let (signer, signed) =
      verify_signed_wrapper-SignedUnder p "issuer" (get "receipt" envelope) e₂ in
    let work = validate_work_payload-Work p payload e₃ in
    let (verified, count) =
      verify_counters-Verified p expected [] counters e₅
        (record { each = tt; distinct = tt; others = refl }) in
    subst (Attested p) (ok-injective h₅) (record {
      issuer = checked.0;
      signed =
          subst (SignedUnder p "issuer" payload)
            (str-eq (sym signed.signer_field ∙ work.issuer_field)) signed;
      result = work.result;
      completed_at = checked.1;
      completed_at_field = work.completed_at_field;
      verifiers = verifiers;
      verified = verified;
      count = omega (arith, count);
    })
