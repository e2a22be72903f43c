-- ===== src/Receipt.antt =====
-- receipt.py: what GitHub's answers and a receipt's fields must look like.
pub mod Payload
pub mod Signed
pub mod Client
pub mod Service
pub mod Guarantee
pub mod RoundTrip
pub mod Ci
pub mod Cooldown
use technocore_safe_agent.Base.{
  ℕ, String, Bool, true, false, ◌&&◌, ◌||◌, not, Option, none, some, List, [], ◌∷◌, map, ◌==◌,
  nat_eq, string_eq, list_eq, length, leb, every, if◌then◌else◌, Error, Result, ok, err,
  github_receipt_error, require, ◌>>=◌, ◌>>◌,
}
use technocore_safe_agent.Json.{Value, Fields, Items, bool, int, str, list, obj, items, nonnegative}
use technocore_safe_agent.Crypto.Chars.{codes, is_hex}
use technocore_safe_agent.Crypto.Library.{Primitives}
use technocore_safe_agent.Github.{is_alnum, ends_alnum, owner_pattern, valid_repository}
use technocore_safe_agent.Github.Url.{split_slash}

pub record PullRequestEvidence : Type 0 where
  pub repository : String
  pub number : ℕ
  pub url : String
  pub author : String
  pub state : String
  pub merged : Bool
  pub draft : Bool
  pub head_sha : String
  pub base_sha : String
  pub merge_commit_sha : Option String
  pub ci : String
  pub ci_data_complete : Bool
  pub checks_observed : ℕ
  pub checks_total : ℕ
  pub statuses_observed : ℕ
  pub statuses_total : ℕ
  pub source_updated_at : String

abbrev pub invalid_response : Error
invalid_response = github_receipt_error "invalid_github_response"

abbrev pub invalid_receipt : Error
invalid_receipt = github_receipt_error "invalid_receipt"

abbrev pub api_version : String
api_version = "2026-03-10"

abbrev pub receipt_schema : String
receipt_schema = "technocore-github-pr-receipt-v1"

abbrev pub receipt_source : String
receipt_source = "github-public-rest"

abbrev pub ci_states : List String
ci_states = "failure" ∷ "no_signals" ∷ "partial" ∷ "pending" ∷ "success" ∷ []

-- SHA_PATTERN.fullmatch: [0-9a-f]{40}
unfoldable pub sha_pattern : String → Bool
sha_pattern s = let cs = codes s in length cs == 40 && every is_hex cs

-- [A-Za-z0-9](?:[A-Za-z0-9-]{0,98}[A-Za-z0-9])?
unfoldable pub login_codes : List ℕ → Bool
login_codes [] = false
login_codes (c ∷ rest) =
    is_alnum c
    && leb (length rest) 99
    && every (λ d. is_alnum d || d == b'-') rest
    && ends_alnum rest

abbrev pub onto_found : ℕ → Option (List ℕ) → Option (List ℕ)
onto_found c none = none
onto_found c (some cs) = some (c ∷ cs)

-- What stands before the suffix, if the text ends with it.
unfoldable pub before_suffix : List ℕ → List ℕ → Option (List ℕ)
before_suffix suffix [] = if suffix == [] then some [] else none
before_suffix suffix (c ∷ cs) =
    let rest = before_suffix suffix cs in if suffix == c ∷ cs then some [] else onto_found c rest

-- AUTHOR_PATTERN.fullmatch: a login, then (?:\[bot\])?
unfoldable pub author_pattern : String → Bool
unfolding before_suffix login_codes
author_pattern s = login_codes (codes s) || elim (before_suffix (codes "[bot]") (codes s)) [
  | none ↦ false
  | some login ↦ login_codes login
]

-- `_require_sha`
unfoldable pub require_sha : Value → Result String
require_sha (str s) = if sha_pattern s then ok s else err invalid_response
require_sha _ = err invalid_response

-- `_require_count`
unfoldable pub require_count : Value → Result ℕ
unfolding nonnegative
require_count value = elim (nonnegative value) [
  | none ↦ err invalid_response
  | some count ↦ ok count
]

-- `_mapping`
unfoldable pub mapping : Value → Result Fields
mapping (obj fields) = ok fields
mapping _ = err invalid_response

-- `_list`
unfoldable pub list_of : Value → Result (List Value)
list_of (list values) = ok (items values)
list_of _ = err invalid_response

unfoldable pub bool_of : Error → Value → Result Bool
bool_of e (bool b) = ok b
bool_of e _ = err e

-- `_parse_repository`: one slash, and what stands on either side of it.
abbrev pub repository_parts : String → List String → Result String
repository_parts value (owner ∷ repository ∷ []) =
    if owner_pattern owner && valid_repository repository then ok value else err invalid_response
repository_parts value _ = err invalid_response

unfoldable pub parse_repository : Value → Result String
unfolding split_slash
parse_repository (str value) = repository_parts value (split_slash value)
parse_repository _ = err invalid_response

-- `not isinstance(author, str) or AUTHOR_PATTERN.fullmatch(author) is None`
unfoldable pub author_of : Error → Value → Result String
author_of e (str s) = if author_pattern s then ok s else err e
author_of e _ = err e

module _ (p : Primitives) where
  open p use {category, fromisoformat}

  -- TIMESTAMP_PATTERN, a place at a time: `d` stands for \d, a decimal digit of any script.
  abbrev pub has_shape : List ℕ → List ℕ → Bool
  has_shape [] [] = true
  has_shape [] (_ ∷ _) = false
  has_shape (_ ∷ _) [] = false
  has_shape (place ∷ places) (c ∷ cs) =
      let rest = has_shape places cs in
      if (if place == b'd' then category c == "Nd" else place == c) then rest else false

  -- TIMESTAMP_PATTERN and datetime.fromisoformat; what the pattern accepts ends with Z, which
  -- stands for +00:00
  unfoldable pub timestamp : String → Option ℕ
  timestamp s = if has_shape (codes "dddd-dd-ddTdd:dd:ddZ") (codes s) then fromisoformat s else none

  -- `_require_timestamp`
  unfoldable pub require_timestamp : Value → Result String
  unfolding timestamp
  require_timestamp (str s) = elim (timestamp s) [
    | none ↦ err invalid_response
    | some seconds ↦ ok s
  ]
  require_timestamp _ = err invalid_response
