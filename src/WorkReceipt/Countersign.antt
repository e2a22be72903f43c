-- ===== src/WorkReceipt/Countersign.antt =====
-- What a countersignature is worth: the independent execution that it stands on.
use mathlib.Core.Path.{subst}
use technocore_safe_agent.Base.{
  ℕ, suc, String, Bool, true, not, ◌&&◌, ◌==◌, string_eq, length, List, [], ◌∷◌, some, Option, ok,
  work_receipt_error, ◌≡◌, refl, sym, ap, ◌∙◌, arith, >>=-eq-ok, ok-injective, str_eq_iff, require,
}
use technocore_safe_agent.Json.{
  Value, Items, Fields, str, list, nil, cons, items, get, keys_are, is_text,
}
use technocore_safe_agent.Json.Laws.{is_text-eq}
use technocore_safe_agent.Crypto.Library.{Primitives, PrivateKey}
use technocore_safe_agent.WorkReceipt.{envelope_schema, validate_work_payload}
use technocore_safe_agent.WorkReceipt.Envelope.{
  WorkReceiptSummary, verify_signed_wrapper, verify_counters, countersignatures_of,
  execution_sha256, verify_envelope,
}
use technocore_safe_agent.WorkReceipt.Attested.{expected_of}
use technocore_safe_agent.WorkReceipt.Run.{Checkout, Execution, inspect_checkout, execute}
use technocore_safe_agent.WorkReceipt.Repeated.{
  CleanAt, Repeats, inspect_checkout-CleanAt, is_same_execution-Repeats,
}
use technocore_safe_agent.WorkReceipt.Issue.{
  Scene, envelope_of, snoc, items_of, value_of, is_countersigned_by, is_same_execution, text_of,
  signed_wrapper, check_signer, observe, counter_payload, is_same_timeout, countersign_work_receipt,
}

-- What a summary takes from its envelope.
record Summarises (p : Primitives) (envelope : Fields) (summary : WorkReceiptSummary) : Type 0 where
  counters : List Value
  payload_of : verify_signed_wrapper p "issuer" (get "receipt" envelope) ≡ ok summary.payload
  counters_of : countersignatures_of (get "countersignatures" envelope) ≡ ok counters
  count : summary.countersignatures ≡ length counters

verify_envelope-Summarises :
    (p : Primitives) (envelope : Fields) {summary : WorkReceiptSummary}
    → verify_envelope p envelope ≡ ok summary
    → Summarises p envelope summary
unfolding verify_envelope
verify_envelope-Summarises p envelope h =
    let (_, _, h₁) =
      >>=-eq-ok
        (require
          (keys_are ("schema" ∷ "receipt" ∷ "countersignatures" ∷ []) envelope
            && is_text envelope_schema (get "schema" envelope))
          work_receipt_error)
        _ h in
    let (payload, e₂, h₂) =
      >>=-eq-ok (verify_signed_wrapper p "issuer" (get "receipt" envelope)) _ h₁ in
    let (checked, _, h₃) = >>=-eq-ok (validate_work_payload p payload) _ h₂ in
    let (counters, e₄, h₄) =
      >>=-eq-ok (countersignatures_of (get "countersignatures" envelope)) _ h₃ in
    let (_, _, h₅) =
      >>=-eq-ok (verify_counters p (expected_of p payload checked.0 checked.1) [] counters) _ h₄ in
    subst (Summarises p envelope) (ok-injective h₅)
      (record { counters = counters; payload_of = e₂; counters_of = e₄; count = refl })

length-items-snoc : (xs : Items) (v : Value) → length (items (snoc xs v)) ≡ suc (length (items xs))
length-items-snoc nil v = refl
length-items-snoc (cons x xs) v = ap (λ n. suc n) (length-items-snoc xs v)

countersignatures_of-eq :
    (v : Value) {counters : List Value}
    → countersignatures_of v ≡ ok counters
    → items (items_of v) ≡ counters
unfolding countersignatures_of
countersignatures_of-eq (list xs) h = ground arith
countersignatures_of-eq v h = cc

text_of-eq : (v : Value) {s : String} → text_of v ≡ ok s → v ≡ str s
text_of-eq (str s) h = cc
text_of-eq v h = cc

-- A clean checkout before and after, and what `observe` returns between them.
record Observed (p : Primitives) (commit repository : String) (command : Value) (scene : Scene)
    (e : Execution) : Type 0 where
  executed : execute p command scene.run ≡ ok e
  clean_before : CleanAt p commit repository scene.before
  clean_after : CleanAt p commit repository scene.after

pub record Countersigns (p : Primitives) (envelope updated : Fields) (scene : Scene) : Type 0 where
  pub earlier : WorkReceiptSummary
  pub later : WorkReceiptSummary
  pub accepted : verify_envelope p envelope ≡ ok earlier
  pub verified : verify_envelope p updated ≡ ok later
  pub same_payload : later.payload ≡ earlier.payload
  pub one_more : later.countersignatures ≡ suc (earlier.countersignatures)
  pub commit : String
  pub repository : String
  pub commit_field : get "commit" earlier.payload ≡ str commit
  pub repository_field : get "repository" earlier.payload ≡ str repository
  pub clean_before : CleanAt p commit repository scene.before
  pub clean_after : CleanAt p commit repository scene.after
  pub repeats : Repeats p scene.run earlier.payload

-- The new envelope keeps the receipt and has one countersignature more.
updated_lem :
    (p : Primitives) (envelope : Fields) (counter : Value) {earlier later : WorkReceiptSummary}
    → verify_envelope p envelope ≡ ok earlier
    → verify_envelope p (
        envelope_of
          (get "receipt" envelope)
          (snoc (items_of (get "countersignatures" envelope)) counter))
      ≡ ok later
    → (later.payload ≡ earlier.payload)
      × (later.countersignatures ≡ suc (earlier.countersignatures))
unfolding envelope_of get
updated_lem p envelope counter before after =
    let old = verify_envelope-Summarises p envelope before in
    let new = verify_envelope-Summarises p _ after in
    let old_items = countersignatures_of-eq (get "countersignatures" envelope) old.counters_of in
    let new_items = countersignatures_of-eq _ new.counters_of in
    (
      ok-injective (sym new.payload_of ∙ old.payload_of),
      new.count
          ∙ ap length (sym new_items)
          ∙ length-items-snoc (items_of (get "countersignatures" envelope)) counter
          ∙ ap (λ xs. suc (length xs)) old_items
          ∙ ap (λ n. suc n) (sym old.count),
    )

observe-Observed :
    (p : Primitives) (commit : String) (checkout : Checkout) (command : Value) (scene : Scene)
    {e : Execution}
    → inspect_checkout p (some commit) scene.before ≡ ok checkout
    → observe p checkout command scene ≡ ok e
    → Observed p commit checkout.repository command scene e
unfolding observe
observe-Observed p commit checkout command scene inspected h =
    let (found, e₁, h₁) = >>=-eq-ok (execute p command scene.run) _ h in
    let (after, e₂, h₂) =
      >>=-eq-ok (inspect_checkout p (some (checkout.commit)) scene.after) _ h₁ in
    let (_, e₃, h₃) =
      >>=-eq-ok (require (after.repository == checkout.repository) work_receipt_error) _ h₂ in
    let (same_commit, before) = inspect_checkout-CleanAt p commit scene.before inspected in
    let (_, after_commit) = inspect_checkout-CleanAt p checkout.commit scene.after e₂ in
    let same_repository : after.repository ≡ checkout.repository =
      ground (arith, str_eq_iff after.repository checkout.repository) in
    subst (Observed p commit checkout.repository command scene) (ok-injective h₃) (record {
      executed = e₁;
      clean_before = before;
      clean_after =
          subst (λ c. CleanAt p c checkout.repository scene.after) same_commit
            (subst (λ r. CleanAt p checkout.commit r scene.after) same_repository after_commit);
    })

-- The envelope that `countersign_work_receipt` returns is accepted, with the payload of the receipt
-- that it was given and one countersignature more; before and after the countersigner's run, git
-- showed a checkout without changes, at the receipt's commit and of its repository; and the run
-- ended with the result and the exit code of the receipt, with outputs of its hashes and sizes.
pub countersign_work_receipt-Countersigns :
    (p : Primitives) (envelope : Fields) (verifier_did : String) (key : PrivateKey)
    (timeout : Option ℕ) (scene : Scene) (observed_at : String) {updated : Fields}
    → countersign_work_receipt p envelope verifier_did key timeout scene observed_at ≡ ok updated
    → Countersigns p envelope updated scene
unfolding countersign_work_receipt
countersign_work_receipt-Countersigns p envelope verifier_did key timeout scene observed_at h =
    let (summary, e₁, h₁) = >>=-eq-ok (verify_envelope p envelope) _ h in
    let (_, _, h₂) = >>=-eq-ok (check_signer p key verifier_did) _ h₁ in
    let (_, _, h₃) =
      >>=-eq-ok
        (require (not (is_text verifier_did (get "issuer" summary.payload))) work_receipt_error) _
        h₂ in
    let (_, _, h₄) =
      >>=-eq-ok
        (require (not (is_countersigned_by verifier_did (get "countersignatures" envelope)))
          work_receipt_error)
        _ h₃ in
    let (_, _, h₅) =
      >>=-eq-ok
        (require (is_same_timeout p timeout (get "timeout_ms" summary.payload)) work_receipt_error)
        _ h₄ in
    let (commit, e₆, h₆) = >>=-eq-ok (text_of (get "commit" summary.payload)) _ h₅ in
    let (checkout, e₇, h₇) = >>=-eq-ok (inspect_checkout p (some commit) scene.before) _ h₆ in
    let (_, e₈, h₈) =
      >>=-eq-ok
        (require (is_text checkout.repository (get "repository" summary.payload))
          work_receipt_error)
        _ h₇ in
    let (execution, e₉, h₉) =
      >>=-eq-ok (observe p checkout (get "command" summary.payload) scene) _ h₈ in
    let (_, e₁₀, h₁₀) =
      >>=-eq-ok (require (is_same_execution execution summary.payload) work_receipt_error) _ h₉ in
    let (receipt_hash, _, h₁₁) =
      >>=-eq-ok (text_of (get "payload_sha256" (value_of (get "receipt" envelope)))) _ h₁₀ in
    let (counter, _, h₁₂) =
      >>=-eq-ok
        (signed_wrapper p key (
          counter_payload p verifier_did receipt_hash (execution_sha256 p summary.payload)
            observed_at))
        _ h₁₁ in
    let observed = observe-Observed p commit checkout (get "command" summary.payload) scene e₇ e₉ in
    let (later, e₁₃, h₁₃) = >>=-eq-ok (verify_envelope p _) _ h₁₂ in
    subst (λ updated. Countersigns p envelope updated scene) (ok-injective h₁₃)
      (record {
        earlier = summary;
        later = later;
        accepted = e₁;
        verified = e₁₃;
        same_payload = (updated_lem p envelope counter e₁ e₁₃).0;
        one_more = (updated_lem p envelope counter e₁ e₁₃).1;
        commit = commit;
        repository = checkout.repository;
        commit_field = text_of-eq (get "commit" summary.payload) e₆;
        repository_field =
            is_text-eq checkout.repository (get "repository" summary.payload) (required e₈);
        clean_before = observed.clean_before;
        clean_after = observed.clean_after;
        repeats =
            is_same_execution-Repeats p (get "command" summary.payload) scene.run summary.payload
              observed.executed (required e₁₀);
      })
  where
    required : {b : Bool} {u : Unit} → require b work_receipt_error ≡ ok u → b ≡ true
    required {b} e = ground arith
