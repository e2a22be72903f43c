-- ===== src/Github.antt =====
-- The names and the pull-request URLs of GitHub: receipt.py and capabilities.py share the patterns.
pub mod Url
use technocore_safe_agent.Base.{
  ℕ, ◌-◌, String, Bool, true, false, ◌&&◌, ◌||◌, not, List, [], ◌∷◌, ◌==◌, nat_eq, string_eq,
  list_eq, leb, length, every, last, Option, none, some, if◌then◌else◌,
}
use technocore_safe_agent.Crypto.Chars.{codes, is_digit, is_lower, is_upper}

-- [A-Za-z0-9]
unfoldable pub is_alnum : ℕ → Bool
is_alnum c = is_upper c || is_lower c || is_digit c

abbrev pub ends_alnum : List ℕ → Bool
ends_alnum cs = elim (last cs) [ none ↦ true | some c ↦ is_alnum c ]

-- OWNER_PATTERN.fullmatch: [A-Za-z0-9](?:[A-Za-z0-9-]{0,37}[A-Za-z0-9])?
abbrev pub owner_codes : List ℕ → Bool
owner_codes [] = false
owner_codes (c ∷ rest) =
    is_alnum c
    && leb (length rest) 38
    && every (λ d. is_alnum d || d == b'-') rest
    && ends_alnum rest

unfoldable pub owner_pattern : String → Bool
owner_pattern s = owner_codes (codes s)

-- REPOSITORY_PATTERN.fullmatch: [A-Za-z0-9_.-]{1,100}
unfoldable pub repository_pattern : String → Bool
repository_pattern s =
    let cs = codes s in
    leb 1 (length cs)
    && leb (length cs) 100
    && every (λ d. is_alnum d || d == b'_' || d == b'.' || d == b'-') cs

-- text.endswith(suffix): the suffix is what some drop of leading characters leaves
unfoldable pub ends_with : List ℕ → List ℕ → Bool
ends_with suffix [] = suffix == []
ends_with suffix (c ∷ cs) = suffix == c ∷ cs || ends_with suffix cs

-- `_valid_repository`
unfoldable pub valid_repository : String → Bool
valid_repository value =
    repository_pattern value
    && not (value == "." || value == "..")
    && not (ends_with (codes ".git") (codes value))
