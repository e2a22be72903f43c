-- ===== src/Config.antt =====
-- config.py and identity.py: the public identity and the configuration of one mailbox, read from JSON.
pub mod Health
use technocore_safe_agent.Base.{
  ℕ, String, Bool, true, false, ◌&&◌, ◌||◌, not, Option, none, some, List, [], ◌∷◌, ◌++◌, ◌==◌,
  nat_eq, string_eq, length, leb, every, contains, if◌then◌else◌, Error, Result, ok, err,
  config_error, identity_error, protocol_value_error, value_error, protocol_value_as, require,
  ◌>>=◌, ◌>>◌,
}
use technocore_safe_agent.Json.{
  Value, Fields, null, str, obj, get, has, keys, positive, is_text, member_of,
}
use technocore_safe_agent.Crypto.{
  validate_did, validate_room, validate_nonce, fingerprint_of_did, did_from_private_key,
}
use technocore_safe_agent.Crypto.Chars.{codes, is_hex_any}
use technocore_safe_agent.Crypto.Library.{Primitives, PrivateKey}
use technocore_safe_agent.Github.{is_alnum}
use technocore_safe_agent.Protocol.BaseUrl.{validate_base_url}

-- What `json.loads(path.read_text(encoding="utf-8"))` comes to: an OSError, a UnicodeDecodeError, a
-- JSONDecodeError, or a value.
pub data TextFile : Type 0 where
  unreadable undecodable malformed : TextFile
  holds : Value → TextFile

unfoldable pub read_json : Error → TextFile → Result Value
read_json e unreadable = err e
read_json e undecodable = err value_error
read_json e malformed = err e
read_json e (holds value) = ok value

abbrev pub fields_or : Error → Value → Result Fields
fields_or e (obj fields) = ok fields
fields_or e _ = err e

-- `validate_did` and `validate_room` of any value
abbrev pub did_of : Value → Result String
did_of (str s) = validate_did s
did_of _ = err protocol_value_error

abbrev pub room_of : Value → Result String
room_of (str s) = validate_room s
room_of _ = err protocol_value_error

-- A str that is not empty.
abbrev pub text_or : Error → Value → Result String
text_or e (str s) = if s == "" then err e else ok s
text_or e _ = err e

pub record IdentityRecord : Type 0 where
  pub did : String
  pub fingerprint : String
  pub keychain_service : String
  pub keychain_account : String

pub record AgentConfig : Type 0 where
  pub name : String
  pub did : String
  pub fingerprint : String
  pub room : String
  pub base_url : String
  pub status : String
  pub created_at : String
  -- as validate_nonce renders it
  pub provision_nonce : String
  pub provisioned_seq : Option ℕ

-- [A-Za-z0-9][A-Za-z0-9_-]{0,47}
abbrev pub name_codes : List ℕ → Bool
name_codes [] = false
name_codes (c ∷ rest) =
    is_alnum c && leb (length rest) 47 && every (λ d. is_alnum d || d == b'_' || d == b'-') rest

abbrev pub name_of : Value → Result String
name_of (str s) = if name_codes (codes s) then ok s else err config_error
name_of _ = err config_error

abbrev pub required_keys : List String
required_keys =
    "schema" ∷ "name" ∷ "did" ∷ "fingerprint" ∷ "room" ∷ "base_url" ∷ "status" ∷ "created_at"
    ∷ "provision_nonce" ∷ []

-- cls(**payload) raises no TypeError: each field without a default is given, and no other.
unfoldable pub are_config_fields : Fields → Bool
unfolding has
are_config_fields payload =
    every (has payload) required_keys
    && every (contains ("provisioned_seq" ∷ required_keys)) (keys payload)

abbrev pub nonce_of : Value → Result String
nonce_of value = protocol_value_as config_error (validate_nonce value)

unfoldable pub provisioned_seq_of : Value → Result (Option ℕ)
unfolding positive
provisioned_seq_of null = ok none
provisioned_seq_of value = elim (positive value) [
  | none ↦ err config_error
  | some sequence ↦ ok (some sequence)
]

abbrev pub is_given : Option ℕ → Bool
is_given none = false
is_given (some _) = true

module _ (p : Primitives) where
  -- `IdentityRecord.load`
  unfoldable pub load_identity : TextFile → Result IdentityRecord
  unfolding read_json get
  load_identity file = do
    value ← read_json identity_error file
    payload ← fields_or identity_error value
    custody ← fields_or identity_error (get "custody" payload)
    require (is_text "macos-keychain" (get "backend" custody)) identity_error
    did ← did_of (get "did" payload)
    fingerprint ← fingerprint_of_did p did
    require (is_text fingerprint (get "fingerprint" payload)) identity_error
    service ← text_or identity_error (get "service" custody)
    account ← text_or identity_error (get "account" custody)
    ok (record {
      did = did;
      fingerprint = fingerprint;
      keychain_service = service;
      keychain_account = account;
    })

  -- `AgentConfig.validate` of the fields
  unfoldable pub validate : Fields → Result AgentConfig
  unfolding get member_of provisioned_seq_of
  validate payload = do
    require (is_text "technocore-safe-agent-config-v1" (get "schema" payload)) config_error
    name ← name_of (get "name" payload)
    did ← did_of (get "did" payload)
    room ← room_of (get "room" payload)
    validate_base_url p (get "base_url" payload)
    base_url ← text_or config_error (get "base_url" payload)
    status ← member_of config_error ("pending" ∷ "active" ∷ []) (get "status" payload)
    fingerprint ← fingerprint_of_did p did
    require (is_text fingerprint (get "fingerprint" payload)) config_error
    created_at ← text_or config_error (get "created_at" payload)
    provision_nonce ← nonce_of (get "provision_nonce" payload)
    provisioned_seq ← provisioned_seq_of (get "provisioned_seq" payload)
    require (not (status == "active" && not (is_given provisioned_seq))) config_error
    ok (record {
      name = name;
      did = did;
      fingerprint = fingerprint;
      room = room;
      base_url = base_url;
      status = status;
      created_at = created_at;
      provision_nonce = provision_nonce;
      provisioned_seq = provisioned_seq;
    })

  -- `AgentConfig.load`
  unfoldable pub load_config : TextFile → Result AgentConfig
  unfolding read_json are_config_fields validate
  load_config file = do
    value ← read_json config_error file
    payload ← fields_or config_error value
    require (are_config_fields payload) config_error
    validate payload

-- `private_key_from_seed`, over Ed25519PrivateKey.from_private_bytes(bytes.fromhex(seed))
unfoldable pub private_key_from_seed : (String → PrivateKey) → String → Result PrivateKey
private_key_from_seed from_hex seed =
    if length (codes seed) == 64 && every is_hex_any (codes seed)
    then ok (from_hex seed)
    else err identity_error

-- `load_verified_private_key` of the seed that the provider returns
unfoldable pub load_verified_private_key :
    (String → PrivateKey) → IdentityRecord → Result String → Result PrivateKey
unfolding private_key_from_seed
load_verified_private_key from_hex record' provided = do
  seed ← provided
  key ← private_key_from_seed from_hex seed
  derived_did ← did_from_private_key key
  require (derived_did == record'.did) identity_error
  ok key
