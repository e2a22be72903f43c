-- ===== src/WorkReceipt/Guarantee.antt =====
-- What the loop over the countersignatures of a work receipt has found when it ends.
use mathlib.Core.Path.{subst}
use technocore_safe_agent.Base.{
  ℕ, ◌+◌, ◌≤◌, String, true, false, nat_eq, string_eq, contains, All, length, List, [], ◌∷◌, ok,
  work_receipt_error, ◌≡◌, sym, ap, ◌∙◌, arith, >>=-eq-ok, ok-injective, str_eq_iff, require,
}
use technocore_safe_agent.Json.{Value, Fields, str, get}
use technocore_safe_agent.Crypto.Library.{Primitives}
use technocore_safe_agent.WorkReceipt.{
  Countersignature, parse_timestamp, validate_countersignature_payload,
}
use technocore_safe_agent.WorkReceipt.Signers.{
  SignedUnder, verify_signed_wrapper-SignedUnder, validate_countersignature_payload-Says,
}
use technocore_safe_agent.WorkReceipt.Envelope.{
  Expected, verify_signed_wrapper, agrees, verify_counter, verify_counters,
}

-- A countersignature of this receipt and execution, by someone else, made after the completion.
pub record Countersigned (p : Primitives) (expected : Expected) (verifier : String) : Type 0 where
  pub payload : Fields
  pub signed : SignedUnder p "verifier" payload verifier
  pub receipt_field : get "receipt_payload_sha256" payload ≡ str expected.receipt_hash
  pub execution_field : get "execution_sha256" payload ≡ str expected.execution_hash
  pub observed_at : ℕ
  pub observed_at_field : parse_timestamp p (get "observed_at" payload) ≡ ok observed_at
  pub later : expected.completed_at ≤ observed_at

-- No name stands twice.
abbrev pub NoRepeat : List String → Type 0
NoRepeat [] = Unit
NoRepeat (name ∷ names) = (contains names name ≡ false) × NoRepeat names

str-eq : {s t : String} → str s ≡ str t → s ≡ t
str-eq h = cc

record Agreed (expected : Expected) (verifiers : List String) (c : Countersignature) : Type 0 where
  receipt_hash : c.receipt_payload_sha256 ≡ expected.receipt_hash
  execution_hash : c.execution_sha256 ≡ expected.execution_hash
  later : expected.completed_at ≤ c.observed_at
  new : contains (expected.issuer ∷ verifiers) c.verifier ≡ false

agrees-Agreed :
    (p : Primitives) (expected : Expected) (verifiers : List String) (c : Countersignature)
    → agrees p expected verifiers c ≡ true
    → Agreed expected verifiers c
unfolding agrees
agrees-Agreed p expected verifiers c h = record {
  receipt_hash = ground (arith, str_eq_iff c.receipt_payload_sha256 expected.receipt_hash);
  execution_hash = ground (arith, str_eq_iff c.execution_sha256 expected.execution_hash);
  later = ground arith;
  new = ground arith;
}

verify_counter-Countersigned :
    (p : Primitives) (expected : Expected) (verifiers : List String) (value : Value)
    {c : Countersignature}
    → verify_counter p expected verifiers value ≡ ok c
    → Countersigned p expected c.verifier
      × (contains (expected.issuer ∷ verifiers) c.verifier ≡ false)
unfolding verify_counter
verify_counter-Countersigned p expected verifiers value {c} h =
    let (payload, e₁, h₁) = >>=-eq-ok (verify_signed_wrapper p "verifier" value) _ h in
    let (counter, e₂, h₂) = >>=-eq-ok (validate_countersignature_payload p payload) _ h₁ in
    let (_, e₃, h₃) =
      >>=-eq-ok (require (agrees p expected verifiers counter) work_receipt_error) _ h₂ in
    let (signer, signed) = verify_signed_wrapper-SignedUnder p "verifier" value e₁ in
    let says = validate_countersignature_payload-Says p payload e₂ in
    let same : signer ≡ counter.verifier = str-eq (sym signed.signer_field ∙ says.verifier_field) in
    let agreed = agrees-Agreed p expected verifiers counter (ground arith) in
    let made = ok-injective h₃ in
    subst
      (λ k.
        Countersigned p expected k.verifier
        × (contains (expected.issuer ∷ verifiers) k.verifier ≡ false))
      made
      (
        record {
          payload = payload;
          signed = subst (SignedUnder p "verifier" payload) same signed;
          receipt_field = says.receipt_field ∙ ap str agreed.receipt_hash;
          execution_field = says.execution_field ∙ ap str agreed.execution_hash;
          observed_at = counter.observed_at;
          observed_at_field = says.observed_at_field;
          later = agreed.later;
        },
        agreed.new,
      )

-- Each of these verifiers has countersigned; none is named twice, and none is the issuer.
pub record Verified (p : Primitives) (expected : Expected) (verifiers : List String) : Type 0 where
  pub each : All (Countersigned p expected) verifiers
  pub distinct : NoRepeat verifiers
  pub others : contains verifiers expected.issuer ≡ false

pub verify_counters-Verified :
    (p : Primitives) (expected : Expected) (seen : List String) (counters : List Value)
    {verifiers : List String}
    → verify_counters p expected seen counters ≡ ok verifiers
    → Verified p expected seen
    → Verified p expected verifiers × (length verifiers ≡ length counters + length seen)
unfolding verify_counters
verify_counters-Verified p expected seen [] h inv =
    let same = ok-injective h in
    (subst (Verified p expected) same inv, omega (arith, ap length same))
verify_counters-Verified p expected seen (value ∷ rest) h inv =
    let (c, e, h₁) = >>=-eq-ok (verify_counter p expected seen value) _ h in
    let (signed, new) = verify_counter-Countersigned p expected seen value e in
    let extended : Verified p expected (c.verifier ∷ seen) = record {
      each = (signed, inv.each);
      distinct = (ground arith, inv.distinct);
      others = ground (
        arith,
        inv.others,
        new,
        str_eq_iff c.verifier expected.issuer,
        str_eq_iff expected.issuer c.verifier,
      );
    } in
    let (verified, count) =
      verify_counters-Verified p expected (c.verifier ∷ seen) rest h₁ extended in
    (verified, omega (arith, count))
