-- ===== src/Tests/Keys.antt =====
-- A key, a library that signs with it, and a signature under its DID.
use Prim.Native.String.{◌++◌ as ◌<>◌}
use technocore_safe_agent.Base.{ℕ, ◌<◌, true, List, [], ◌∷◌, All, every, ltb, ok, ◌≡◌, refl, arith}
use technocore_safe_agent.Crypto.{
  did_pattern, did_from_private_key, public_key_from_did, signature_pattern, sign_detached,
  verify_detached_signature,
}
use technocore_safe_agent.Crypto.Chars.{strip_prefix, is_base58, is_urlsafe, rstrip}
use technocore_safe_agent.Crypto.Base58.{encode}
use technocore_safe_agent.Crypto.Library.{Primitives}
use technocore_safe_agent.Crypto.Keys.{
  IsRawKey, IsEd25519, public_key_from_did-did_from_private_key,
  verify_detached_signature-sign_detached,
}
use technocore_safe_agent.Tests.Data.{library, key, own_did, signature86}

abbrev signing : Primitives
signing = record library { urlsafe_b64encode = λ bs. signature86 <> "==" }

small : (bytes : List ℕ) → every (λ b. ltb b 256) bytes ≡ true → All (λ b. b < 256) bytes
small [] h = tt
small (b ∷ bytes) h = (ground arith, small bytes (ground arith))

key-IsRawKey : IsRawKey key.public_bytes
key-IsRawKey = record { size = refl; each = small key.public_bytes refl }

key-IsEd25519 : IsEd25519 signing key
unfolding rstrip
key-IsEd25519 = record {
  raw = key-IsRawKey;
  verifies = λ payload. refl;
  padded = λ payload. refl;
  decoded = λ payload. refl;
}

did_run : did_from_private_key key ≡ ok own_did
unfolding did_from_private_key did_pattern strip_prefix is_base58 encode
did_run = refl

sign_run : sign_detached signing key (1 ∷ 2 ∷ []) ≡ ok signature86
unfolding sign_detached signature_pattern is_urlsafe rstrip
sign_run = refl

did_example : public_key_from_did own_did ≡ ok key.public_bytes
did_example = public_key_from_did-did_from_private_key key key-IsRawKey did_run

sign_example : verify_detached_signature signing own_did (1 ∷ 2 ∷ []) signature86 ≡ true
sign_example =
    verify_detached_signature-sign_detached signing key (1 ∷ 2 ∷ []) key-IsEd25519 did_run sign_run
