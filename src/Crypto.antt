-- ===== src/Crypto.antt =====
-- crypto.py: the validators of the protocol's values, the sweep of a text, and detached signatures.
pub mod Chars
pub mod Decimal
pub mod Base58
pub mod Library
pub mod Keys
use Prim.Native.String.{◌++◌ as ◌<>◌}
use technocore_safe_agent.Base.{
  ℕ, String, Bool, true, false, ◌&&◌, Option, none, some, List, [], ◌∷◌, ◌==◌, nat_eq, string_eq,
  list_eq, leb, ltb, length, every, contains, if◌then◌else◌, Result, ok, err, protocol_value_error,
  identity_error, ◌>>=◌, ◌>>◌,
}
use technocore_safe_agent.Json
use technocore_safe_agent.Json.{Value, int, str}
use Chars.{
  codes, strip_prefix, is_base58, is_room_start, is_room_char, is_digit, is_urlsafe, prefix_of,
  lstrip, rstrip, blank_out,
}
use Decimal.{render_int}
use Base58
use Library.{Primitives, PrivateKey}

-- DID_PATTERN.fullmatch
unfoldable pub did_pattern : String → Bool
did_pattern s = elim (strip_prefix (codes "did:key:z6Mk") (codes s)) [
  | none ↦ false
  | some rest ↦ length rest == 44 && every is_base58 rest
]

-- ROOM_PATTERN.fullmatch
abbrev pub room_codes : List ℕ → Bool
room_codes [] = false
room_codes (c ∷ rest) = is_room_start c && leb (length rest) 47 && every is_room_char rest

unfoldable pub room_pattern : String → Bool
room_pattern s = room_codes (codes s)

-- NONCE_PATTERN.fullmatch
unfoldable pub nonce_pattern : String → Bool
nonce_pattern s = let cs = codes s in leb 1 (length cs) && leb (length cs) 19 && every is_digit cs

-- [A-Za-z0-9_-]{86}
unfoldable pub signature_pattern : String → Bool
signature_pattern s = let cs = codes s in length cs == 86 && every is_urlsafe cs

unfoldable pub validate_did : String → Result String
validate_did did = if did_pattern did then ok did else err protocol_value_error

unfoldable pub validate_room : String → Result String
validate_room room = if room_pattern room then ok room else err protocol_value_error

-- `str(nonce)` of any other value holds a character that the pattern refuses.
unfoldable pub validate_nonce : Value → Result String
validate_nonce (int n) =
    let rendered = render_int n in
    if nonce_pattern rendered then ok rendered else err protocol_value_error
validate_nonce (str s) = if nonce_pattern s then ok s else err protocol_value_error
validate_nonce _ = err protocol_value_error

-- f"{room}|{nonce}|{text}"
unfoldable pub canonical_message : String → String → String → String
canonical_message room nonce text = room <> ("|" <> (nonce <> ("|" <> text)))

abbrev pub invisible_categories : List String
invisible_categories = "Cc" ∷ "Cf" ∷ "Cs" ∷ "Co" ∷ "Zl" ∷ "Zp" ∷ []

unfoldable pub did_from_private_key : PrivateKey → Result String
did_from_private_key key =
    let did = "did:key:z" <> Base58.encode (0xed ∷ 0x01 ∷ key.public_bytes) in
    if did_pattern did then ok did else err identity_error

-- decoded.startswith(MULTICODEC_ED25519), and what follows it
abbrev pub raw_key : List ℕ → Result (List ℕ)
raw_key decoded = elim (strip_prefix (0xed ∷ 0x01 ∷ []) decoded) [
  | none ↦ err protocol_value_error
  | some key ↦ if length decoded == 34 then ok key else err protocol_value_error
]

-- did.removeprefix("did:key:z"), of a validated DID: its first nine characters are the prefix
abbrev pub drop_chars : List ℕ → String → String
drop_chars [] s = s
drop_chars (_ ∷ cs) String.[] = ""
drop_chars (_ ∷ cs) (String.◌∷◌ _ s) = drop_chars cs s

unfoldable pub public_key_from_did : String → Result (List ℕ)
public_key_from_did did = do
  valid_did ← validate_did did
  decoded ← Base58.decode (drop_chars (codes "did:key:z") valid_did)
  raw_key decoded

module _ (p : Primitives) where
  open p use {
    utf8, sha256, category, is_space, urlsafe_b64encode, urlsafe_b64decode, ed25519_verify,
  }

  -- hashlib.sha256(value.encode("utf-8")).hexdigest()
  unfoldable pub sha256_text : String → String
  sha256_text value = sha256 (utf8 value)

  unfoldable pub fingerprint_of_did : String → Result String
  unfolding sha256_text
  fingerprint_of_did did = do validate_did did; ok (prefix_of 16 (sha256_text did))

  abbrev pub is_invisible : ℕ → Bool
  is_invisible c = contains invisible_categories (category c)

  -- text.strip()
  unfoldable pub strip : String → String
  strip text = rstrip is_space (lstrip is_space text)

  -- The argument is a str, and the limit its default, 4096.
  unfoldable pub sweep_text : String → Result String
  sweep_text text =
      let swept = strip (blank_out is_invisible text) in
      if swept == ""
      then err protocol_value_error
      else if ltb 4096 (length (codes swept))
      then err protocol_value_error
      else ok swept

  unfoldable pub sign_detached : PrivateKey → List ℕ → Result String
  sign_detached key payload =
      let signature = rstrip (λ c. c == b'=') (urlsafe_b64encode (key.sign payload)) in
      if signature_pattern signature then ok signature else err identity_error

  -- The handlers of `verify_detached_signature` turn each failure into False.
  abbrev pub verified_by : Result (List ℕ) → Option (List ℕ) → List ℕ → Bool
  verified_by (ok key) (some signature) payload = ed25519_verify key signature payload
  verified_by _ _ payload = false

  unfoldable pub verify_detached_signature : String → List ℕ → String → Bool
  verify_detached_signature did payload signature =
      if signature_pattern signature
      then verified_by (public_key_from_did did) (urlsafe_b64decode (signature <> "==")) payload
      else false

  -- (swept, signature)
  unfoldable pub sign_room_message : PrivateKey → String → ℕ → String → Result (String × String)
  sign_room_message key room nonce text = do
    valid_room ← validate_room room
    valid_nonce ← validate_nonce (Json.nat nonce)
    swept ← sweep_text text
    signature ← sign_detached key (utf8 (canonical_message valid_room valid_nonce swept))
    ok (swept, signature)
