-- ===== src/Crypto/Base58.antt =====
-- `_base58btc_encode` and `_base58btc_decode` of crypto.py. Bytes are numbers below 256.
pub mod RoundTrip
use Prim.Native.Char.{Char, code}
use technocore_safe_agent.Base.{
  ℕ, zero, suc, ◌+◌, ◌-◌, ◌*◌, ◌/◌, ◌%◌, String, Option, none, some, List, [], ◌∷◌, ◌==◌, nat_eq,
  string_eq, length, if◌then◌else◌, Result, ok, err, protocol_value_error, ◌>>=◌,
}
use technocore_safe_agent.Crypto.Chars.{lstrip, codes}

abbrev pub alphabet : String
alphabet = "123456789ABCDEFGHJKLMNPQRSTUVWXYZabcdefghijkmnopqrstuvwxyz"

-- BASE58BTC_ALPHABET[index], for an index in range
unfoldable pub char_at : String → ℕ → Char
char_at String.[] i = "1"
char_at (String.◌∷◌ c s) zero = c
char_at (String.◌∷◌ c s) (suc i) = char_at s i

-- BASE58BTC_ALPHABET.index(character); `none` is the ValueError
unfoldable pub index_of : ℕ → String → Option ℕ
index_of c String.[] = none
index_of c (String.◌∷◌ d s) =
    let rest = index_of c s in
    if c == code d then some 0 else elim rest [ none ↦ none | some i ↦ some (i + 1) ]

-- data.lstrip(b"\x00")
unfoldable pub strip_zeroes : List ℕ → List ℕ
strip_zeroes [] = []
strip_zeroes (zero ∷ bs) = strip_zeroes bs
strip_zeroes (suc b ∷ bs) = suc b ∷ bs

-- int.from_bytes(data, "big"), onto an accumulator
unfoldable pub from_bytes : ℕ → List ℕ → ℕ
from_bytes acc [] = acc
from_bytes acc (b ∷ bs) = from_bytes (acc * 256 + b) bs

-- number.to_bytes((number.bit_length() + 7) // 8, "big") in front of `rest`, and b"" for 0; each
-- round divides the number by 256, so `number` rounds are enough.
unfoldable pub to_bytes : ℕ → ℕ → List ℕ → List ℕ
to_bytes zero number rest = rest
to_bytes (suc fuel) number rest =
    let more = to_bytes fuel (number / 256) (number % 256 ∷ rest) in
    if number == 0 then rest else more

-- The loop `while number`, whose fuel is the number itself.
unfoldable pub encode_loop : ℕ → ℕ → String → String
encode_loop zero number encoded = encoded
encode_loop (suc fuel) number encoded =
    let more =
      encode_loop fuel (number / 58) (String.◌∷◌ (char_at alphabet (number % 58)) encoded) in
    if number == 0 then encoded else more

-- "1" * n + text
unfoldable pub ones : ℕ → String → String
ones zero s = s
ones (suc n) s = String.◌∷◌ "1" (ones n s)

unfoldable pub zeroes : ℕ → List ℕ → List ℕ
zeroes zero bs = bs
zeroes (suc n) bs = 0 ∷ zeroes n bs

unfoldable pub encode : List ℕ → String
unfolding encode_loop ones strip_zeroes from_bytes char_at
encode data' =
    let leading_zeroes = length data' - length (strip_zeroes data') in
    let number = from_bytes 0 data' in ones leading_zeroes (encode_loop number number "")

-- The loop over the characters.
unfoldable pub decode_loop : ℕ → String → Result ℕ
unfolding index_of
decode_loop number String.[] = ok number
decode_loop number (String.◌∷◌ c s) = elim (index_of (code c) alphabet) [
  | none ↦ err protocol_value_error
  | some digit ↦ decode_loop (number * 58 + digit) s
]

unfoldable pub decode : String → Result (List ℕ)
unfolding decode_loop to_bytes zeroes lstrip
decode value = if value == "" then err protocol_value_error else do
  number ← decode_loop 0 value
  let decoded = to_bytes number number []
  let leading_zeroes = length (codes value) - length (codes (lstrip (λ c. c == b'1') value))
  ok (zeroes leading_zeroes decoded)
