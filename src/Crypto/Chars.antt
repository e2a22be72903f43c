-- ===== src/Crypto/Chars.antt =====
-- Characters and the regular expressions' character classes of crypto.py, over code points.
use Prim.Native.Char.{Char, code}
use technocore_safe_agent.Base.{
  ℕ, zero, suc, String, Bool, ◌&&◌, ◌||◌, Option, none, some, List, [], ◌∷◌, ◌==◌, nat_eq, leb,
  if◌then◌else◌,
}

-- The code points of a text.
abbrev pub codes : String → List ℕ
codes String.[] = []
codes (String.◌∷◌ c s) = code c ∷ codes s

-- What follows the prefix, if the text begins with it.
unfoldable pub strip_prefix : List ℕ → List ℕ → Option (List ℕ)
strip_prefix [] cs = some cs
strip_prefix (p ∷ ps) [] = none
strip_prefix (p ∷ ps) (c ∷ cs) = let rest = strip_prefix ps cs in if p == c then rest else none

abbrev pub is_digit : ℕ → Bool
is_digit c = leb b'0' c && leb c b'9'

abbrev pub is_lower : ℕ → Bool
is_lower c = leb b'a' c && leb c b'z'

abbrev pub is_upper : ℕ → Bool
is_upper c = leb b'A' c && leb c b'Z'

-- [1-9A-HJ-NP-Za-km-z]
unfoldable pub is_base58 : ℕ → Bool
is_base58 c =
    leb b'1' c && leb c b'9'
    || leb b'A' c && leb c b'H'
    || leb b'J' c && leb c b'N'
    || leb b'P' c && leb c b'Z'
    || leb b'a' c && leb c b'k'
    || leb b'm' c && leb c b'z'

-- [a-z0-9]
unfoldable pub is_room_start : ℕ → Bool
is_room_start c = is_lower c || is_digit c

-- [a-z0-9_-]
unfoldable pub is_room_char : ℕ → Bool
unfolding is_room_start
is_room_char c = is_room_start c || c == b'_' || c == b'-'

-- [A-Za-z0-9_-]
unfoldable pub is_urlsafe : ℕ → Bool
is_urlsafe c = is_upper c || is_lower c || is_digit c || c == b'_' || c == b'-'

-- [0-9a-f]
unfoldable pub is_hex : ℕ → Bool
is_hex c = is_digit c || leb b'a' c && leb c b'f'

-- [0-9a-fA-F]
unfoldable pub is_hex_any : ℕ → Bool
unfolding is_hex
is_hex_any c = is_hex c || leb b'A' c && leb c b'F'

-- text[:n]
unfoldable pub prefix_of : ℕ → String → String
prefix_of zero s = ""
prefix_of (suc n) String.[] = ""
prefix_of (suc n) (String.◌∷◌ c s) = String.◌∷◌ c (prefix_of n s)

module _ (p : ℕ → Bool) where
  -- text.lstrip of the characters that satisfy p
  unfoldable pub lstrip : String → String
  lstrip String.[] = ""
  lstrip (String.◌∷◌ c s) = if p (code c) then lstrip s else String.◌∷◌ c s

  abbrev pub keep_before : Char → String → String
  keep_before c String.[] = if p (code c) then "" else String.◌∷◌ c ""
  keep_before c (String.◌∷◌ d s) = String.◌∷◌ c (String.◌∷◌ d s)

  -- text.rstrip
  unfoldable pub rstrip : String → String
  rstrip String.[] = ""
  rstrip (String.◌∷◌ c s) = keep_before c (rstrip s)

  -- "".join(" " if p(character) else character for character in text)
  unfoldable pub blank_out : String → String
  blank_out String.[] = ""
  blank_out (String.◌∷◌ c s) =
      let rest = blank_out s in if p (code c) then String.◌∷◌ " " rest else String.◌∷◌ c rest
