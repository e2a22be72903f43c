-- ===== src/Delivery/RoundTrip.antt =====
-- A delivery record comes back from its JSON as it was.
use mathlib.Core.Path.{subst}
use technocore_safe_agent.Base.{
  ℕ, ◌+◌, String, true, ◌≡◌, refl, sym, ap, some, Result, ok, arith, >>=-eq-ok, ok-injective,
  eq_refl, string_eq, nat_eq, option_eq, leb, List, ◌⊎◌, inl, inr,
}
use technocore_safe_agent.Json.{nat, str, optional, keys_are}
use technocore_safe_agent.Crypto.{validate_room, validate_did, sha256_text}
use technocore_safe_agent.Crypto.Library.{Primitives}
use technocore_safe_agent.Delivery.{
  DeliveryRecord, Status, status_of, status_text, reply_sequence_of, pending, acknowledged, create,
  to_payload, from_payload, nonce_as_int, signature_of, did_of, exact_swept_text, positive_int,
  acknowledge, sha256_pattern, follows, verify_for_room,
}
use technocore_safe_agent.Delivery.Records.{
  nonce_as_int-nat, signature_of-str, validate_did-eq, positive_int-nat, exact_swept_text-str,
}

-- Each field passes its check of `from_payload`.
pub record IsRecord (p : Primitives) (r : DeliveryRecord) : Type 0 where
  pub room_digest : sha256_pattern r.room_sha256 ≡ true
  pub text_digest : sha256_pattern r.text_sha256 ≡ true
  pub text : exact_swept_text p (str r.text) ≡ ok r.text
  pub digest : sha256_text p r.text ≡ r.text_sha256
  pub reply_sequence :
      reply_sequence_of r.status (optional nat r.reply_sequence) ≡ ok r.reply_sequence
  pub input_sequence : positive_int (nat r.input_sequence) ≡ ok r.input_sequence
  pub did : did_of (str r.did) ≡ ok r.did
  pub nonce : nonce_as_int (nat r.nonce) ≡ ok r.nonce
  pub signature : signature_of (str r.signature) ≡ ok r.signature
  pub later : follows r.reply_sequence r.input_sequence ≡ true

status_of-status_text : (status : Status) → status_of (str (status_text status)) ≡ ok status
status_of-status_text pending = refl
status_of-status_text acknowledged = refl

pub from_payload-to_payload :
    (p : Primitives) (r : DeliveryRecord) → IsRecord p r → from_payload p (to_payload r) ≡ ok r
unfolding from_payload to_payload keys_are
from_payload-to_payload p r v = ground (
  arith,
  status_of-status_text r.status,
  v.room_digest,
  v.text_digest,
  v.text,
  v.digest,
  eq_refl (r.text_sha256),
  v.reply_sequence,
  v.input_sequence,
  v.did,
  v.nonce,
  v.signature,
  v.later,
)

acknowledge-cases :
    (n : ℕ) (r s : DeliveryRecord)
    → acknowledge n r ≡ ok s
    → (s ≡ r)
      ⊎ ((s ≡ record r { status = acknowledged; reply_sequence = some n })
          × (positive_int (nat n) ≡ ok n)
          × (leb (r.input_sequence + 1) n ≡ true))
unfolding acknowledge
acknowledge-cases n r s h =
    let (sequence, e, h₁) = >>=-eq-ok (positive_int (nat n)) _ h in
    let same : sequence ≡ n = positive_int-nat n e in ground arith

pub acknowledge-IsRecord :
    (p : Primitives) (n : ℕ) (r s : DeliveryRecord)
    → IsRecord p r
    → acknowledge n r ≡ ok s
    → IsRecord p s
acknowledge-IsRecord p n r s v h = elim (acknowledge-cases n r s h) [
  | inl same ↦ subst (IsRecord p) (sym same) v
  | inr (changed, positive, later) ↦ subst (IsRecord p) (sym changed) (record {
    room_digest = v.room_digest;
    text_digest = v.text_digest;
    text = v.text;
    digest = v.digest;
    reply_sequence = rw positive refl;
    input_sequence = v.input_sequence;
    did = v.did;
    nonce = v.nonce;
    signature = v.signature;
    later = later;
  })
]

-- A check that returns its argument passes on it again.
itself :
    {A : Type 0} (check : A → Result A) (a : A) {b : A} → check a ≡ ok b → b ≡ a → check b ≡ ok b
itself check a {b} e same = subst (λ x. check x ≡ ok b) (sym same) e

did_of-ok : (s : String) {t : String} → validate_did s ≡ ok t → did_of (str s) ≡ ok t
unfolding did_of
did_of-ok s h = rw h refl

-- A created record passes the checks, if a digest is 64 hexadecimal digits.
pub create-IsRecord :
    (p : Primitives)
    → ((bs : List ℕ) → sha256_pattern (p.sha256 bs) ≡ true)
    → (room : String) (input_sequence : ℕ) (did : String) (nonce : ℕ) (text signature : String)
      (r : DeliveryRecord)
    → create p room input_sequence did nonce text signature ≡ ok r
    → IsRecord p r
unfolding create sha256_text
create-IsRecord p hex room input_sequence did nonce text signature r h =
    let (room', e₁, h₁) = >>=-eq-ok (validate_room room) _ h in
    let (input', e₂, h₂) = >>=-eq-ok (positive_int (nat input_sequence)) _ h₁ in
    let (did', e₃, h₃) = >>=-eq-ok (validate_did did) _ h₂ in
    let (nonce', e₄, h₄) = >>=-eq-ok (nonce_as_int (nat nonce)) _ h₃ in
    let (text', e₅, h₅) = >>=-eq-ok (exact_swept_text p (str text)) _ h₄ in
    let (signature', e₆, h₆) = >>=-eq-ok (signature_of (str signature)) _ h₅ in
    let (_, _, h₇) = >>=-eq-ok (verify_for_room p room' _) _ h₆ in
    let made = ok-injective h₇ in
    subst (IsRecord p) made (record {
      room_digest = hex (p.utf8 room');
      text_digest = hex (p.utf8 text);
      text = itself (λ x. exact_swept_text p (str x)) text e₅ (exact_swept_text-str p text e₅);
      digest = ap (sha256_text p) (exact_swept_text-str p text e₅);
      reply_sequence = refl;
      input_sequence =
          itself (λ x. positive_int (nat x)) input_sequence e₂ (positive_int-nat input_sequence e₂);
      did = itself (λ x. did_of (str x)) did (did_of-ok did e₃) (validate_did-eq did e₃);
      nonce = itself (λ x. nonce_as_int (nat x)) nonce e₄ (nonce_as_int-nat nonce e₄);
      signature = itself (λ x. signature_of (str x)) signature e₆ (signature_of-str signature e₆);
      later = refl;
    })

-- If a digest is 64 hexadecimal digits, then a record that `create` returns, and the one that
-- `acknowledge` makes of it, are read back from their JSON as they were.
pub from_payload-to_payload-create :
    (p : Primitives) (room : String) (input_sequence : ℕ) (did : String) (nonce : ℕ)
    (text signature : String) (reply_sequence : ℕ) (r s : DeliveryRecord)
    → ((bs : List ℕ) → sha256_pattern (p.sha256 bs) ≡ true)
    → create p room input_sequence did nonce text signature ≡ ok r
    → acknowledge reply_sequence r ≡ ok s
    → (from_payload p (to_payload r) ≡ ok r) × (from_payload p (to_payload s) ≡ ok s)
from_payload-to_payload-create p room input_sequence did nonce text signature reply_sequence r s hex
      created acked =
    let v = create-IsRecord p hex room input_sequence did nonce text signature r created in
    (
      from_payload-to_payload p r v,
      from_payload-to_payload p s (acknowledge-IsRecord p reply_sequence r s v acked),
    )
