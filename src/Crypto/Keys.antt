-- ===== src/Crypto/Keys.antt =====
-- did:key identifiers and detached signatures of crypto.py, from the key to the verification.
use mathlib.Core.Path.{subst}
use Prim.Native.String.{◌++◌ as ◌<>◌}
use text.Mathlib.TextLemmas.{nil-append, cons-append}
use technocore_safe_agent.Base.{
  ℕ, ◌<◌, String, true, some, List, ◌∷◌, ◌==◌, nat_eq, string_eq, length, All, ok, ◌≡◌, refl, sym,
  ap, ◌∙◌, arith, Bool-cases, inl, inr,
}
use technocore_safe_agent.Crypto.Chars.{codes, strip_prefix, rstrip}
use technocore_safe_agent.Crypto.Base58 as Base58
use technocore_safe_agent.Crypto.Base58.RoundTrip.{decode-encode}
use technocore_safe_agent.Crypto.Library.{Primitives, PrivateKey}
use technocore_safe_agent.Crypto.{
  did_pattern, validate_did, did_from_private_key, raw_key, drop_chars, public_key_from_did,
  signature_pattern, sign_detached, verify_detached_signature,
}

-- An Ed25519 public key is 32 bytes.
pub record IsRawKey (bytes : List ℕ) : Type 0 where
  pub size : length bytes ≡ 32
  pub each : All (λ b. b < 256) bytes

abbrev multicodec : List ℕ → List ℕ
multicodec bytes = 0xed ∷ 0x01 ∷ bytes

did_from_private_key-eq :
    (key : PrivateKey) {did : String}
    → did_from_private_key key ≡ ok did
    → (did ≡ "did:key:z" <> Base58.encode (multicodec key.public_bytes))
      × (validate_did did ≡ ok did)
unfolding did_from_private_key validate_did
did_from_private_key-eq key {did} h =
    elim (Bool-cases (did_pattern ("did:key:z" <> Base58.encode (multicodec key.public_bytes)))) [
      | inl valid ↦
          let same : "did:key:z" <> Base58.encode (multicodec key.public_bytes) ≡ did =
            ground arith in
          (sym same, let good = subst (λ d. did_pattern d ≡ true) same valid in simp (good) refl)
      | inr other ↦ ground arith
    ]

drop_chars-codes : (prefix rest : String) → drop_chars (codes prefix) (prefix <> rest) ≡ rest
drop_chars-codes String.[] rest = nil-append rest
drop_chars-codes (String.◌∷◌ c prefix) rest =
    ap (drop_chars (codes (String.◌∷◌ c prefix))) (cons-append c prefix rest)
    ∙ drop_chars-codes prefix rest

raw_key-multicodec : (bytes : List ℕ) → length bytes ≡ 32 → raw_key (multicodec bytes) ≡ ok bytes
unfolding strip_prefix
raw_key-multicodec bytes h =
    let size : (length (multicodec bytes) == 34) ≡ true = ground arith in simp (size) refl

-- The DID of a key is read back as the key's 32 bytes.
pub public_key_from_did-did_from_private_key :
    (key : PrivateKey) {did : String}
    → IsRawKey key.public_bytes
    → did_from_private_key key ≡ ok did
    → public_key_from_did did ≡ ok key.public_bytes
unfolding public_key_from_did
public_key_from_did-did_from_private_key key {did} raw h =
    let (same, valid) = did_from_private_key-eq key h in
    let read : Base58.decode (drop_chars (codes "did:key:z") did)
        ≡ ok (multicodec key.public_bytes) =
      ap (λ d. Base58.decode (drop_chars (codes "did:key:z") d)) same
      ∙ ap Base58.decode
          (drop_chars-codes "did:key:z" (Base58.encode (multicodec key.public_bytes)))
      ∙ decode-encode 0xed (0x01 ∷ key.public_bytes) (omega arith)
          (omega arith, (omega arith, raw.each)) in
    simp (valid, read) (raw_key-multicodec key.public_bytes raw.size)

-- What the libraries document of an Ed25519 key and of base64: its signature of a payload verifies
-- under its public key, and its 64 bytes are encoded with two characters of padding and read back.
pub record IsEd25519 (p : Primitives) (key : PrivateKey) : Type 0 where
  pub raw : IsRawKey key.public_bytes
  pub verifies :
      (payload : List ℕ) → p.ed25519_verify key.public_bytes (key.sign payload) payload ≡ true
  pub padded :
      (payload : List ℕ)
      → rstrip (λ c. c == b'=') (p.urlsafe_b64encode (key.sign payload)) <> "=="
        ≡ p.urlsafe_b64encode (key.sign payload)
  pub decoded :
      (payload : List ℕ)
      → p.urlsafe_b64decode (p.urlsafe_b64encode (key.sign payload)) ≡ some (key.sign payload)

-- What `sign_detached` returns under a key is accepted under the DID of the key.
pub verify_detached_signature-sign_detached :
    (p : Primitives) (key : PrivateKey) (payload : List ℕ) {did signature : String}
    → IsEd25519 p key
    → did_from_private_key key ≡ ok did
    → sign_detached p key payload ≡ ok signature
    → verify_detached_signature p did payload signature ≡ true
unfolding verify_detached_signature sign_detached
verify_detached_signature-sign_detached p key payload {did} {signature} library own h =
    let text = rstrip (λ c. c == b'=') (p.urlsafe_b64encode (key.sign payload)) in
    elim (Bool-cases (signature_pattern text)) [
      | inl valid ↦
          let same : text ≡ signature = ground arith in
          let key_read = public_key_from_did-did_from_private_key key library.raw own in
          let read : p.urlsafe_b64decode (text <> "==") ≡ some (key.sign payload) =
            ap p.urlsafe_b64decode (library.padded payload) ∙ library.decoded payload in
          subst (λ s. verify_detached_signature p did payload s ≡ true) same
            (simp (valid, key_read, read) (library.verifies payload))
      | inr other ↦ ground arith
    ]
