-- ===== src/Crypto/Library.antt =====
-- What crypto.py takes from Python's standard library and from `cryptography`: functions that the
-- other modules take as a parameter.
use technocore_safe_agent.Base.{ℕ, String, Bool, Option, List}
use technocore_safe_agent.Json.{Value}

-- The parts of a `urllib.parse.SplitResult`.
pub record UrlParts : Type 0 where
  pub scheme : String
  pub netloc : String
  pub path : String
  pub query : String
  pub fragment : String
  -- the parts of the netloc, in lower case where it is the host
  pub hostname : Option String
  pub username : Option String
  pub password : Option String

pub record Primitives : Type 0 where
  -- text.encode("utf-8")
  pub utf8 : String → List ℕ
  -- hashlib.sha256(data).hexdigest()
  pub sha256 : List ℕ → String
  -- unicodedata.category of a code point
  pub category : ℕ → String
  -- the characters that str.strip removes
  pub is_space : ℕ → Bool
  -- str.casefold
  pub casefold : String → String
  -- urllib.parse.quote(value, safe="")
  pub quote : String → String
  -- urllib.parse.urlsplit; `none` is its ValueError, as for "https://[x"
  pub urlsplit : String → Option UrlParts
  -- TIMESTAMP_PATTERN of audit.py, and datetime.strptime without a ValueError
  pub is_timestamp : String → Bool
  -- json.dumps(value, ensure_ascii=True, separators=(",", ":"), sort_keys=True).encode("utf-8")
  pub canonical_json : Value → List ℕ
  -- json.loads with the hook that refuses a duplicate key; `none` is its ValueError or AuditError
  pub decode_json : List ℕ → Option Value
  -- json.loads of a text and of bytes, without a hook; `none` is the ValueError
  pub loads_text : String → Option Value
  pub loads_bytes : List ℕ → Option Value
  -- json.dumps with the arguments above, before the encoding
  pub dumps : Value → String
  -- datetime.fromisoformat of a UTC text, in seconds; `none` is the ValueError
  pub fromisoformat : String → Option ℕ
  -- base64.urlsafe_b64encode, padding included
  pub urlsafe_b64encode : List ℕ → String
  -- base64.urlsafe_b64decode; `none` is the ValueError
  pub urlsafe_b64decode : String → Option (List ℕ)
  -- Ed25519PublicKey.verify: public key, signature, payload
  pub ed25519_verify : List ℕ → List ℕ → List ℕ → Bool

-- An Ed25519PrivateKey: the raw bytes of its public key, and its signatures.
pub record PrivateKey : Type 0 where
  pub public_bytes : List ℕ
  pub sign : List ℕ → List ℕ
