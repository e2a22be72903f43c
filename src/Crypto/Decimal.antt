-- ===== src/Crypto/Decimal.antt =====
-- Python's `str(n)` and `int(text)` for decimal integers.
pub mod Laws
use Prim.Native.Char.{Char, code}
use Prim.Native.String.{◌++◌ as ◌<>◌}
use technocore_safe_agent.Base.{
  ℕ, zero, suc, ◌+◌, ◌-◌, ◌*◌, ◌/◌, ◌%◌, String, ◌==◌, nat_eq, ltb, if◌then◌else◌,
}
use technocore_safe_agent.Json.Int.{ℤ, pos, negsuc}

-- The character of a number below ten.
unfoldable pub digit_char : ℕ → Char
digit_char zero = "0"
digit_char (suc zero) = "1"
digit_char (suc (suc zero)) = "2"
digit_char (suc (suc (suc zero))) = "3"
digit_char (suc (suc (suc (suc zero)))) = "4"
digit_char (suc (suc (suc (suc (suc zero))))) = "5"
digit_char (suc (suc (suc (suc (suc (suc zero)))))) = "6"
digit_char (suc (suc (suc (suc (suc (suc (suc zero))))))) = "7"
digit_char (suc (suc (suc (suc (suc (suc (suc (suc zero)))))))) = "8"
digit_char d = "9"

-- The digits of `n` in front of `rest`; each round divides `n` by ten, so `n` rounds are enough.
unfoldable pub render_onto : ℕ → ℕ → String → String
unfolding digit_char
render_onto zero n rest = String.◌∷◌ (digit_char (n % 10)) rest
render_onto (suc fuel) n rest =
    let more = render_onto fuel (n / 10) (String.◌∷◌ (digit_char (n % 10)) rest) in
    if ltb n 10 then String.◌∷◌ (digit_char n) rest else more

unfoldable pub render : ℕ → String
unfolding render_onto
render n = render_onto n n ""

unfoldable pub render_int : ℤ → String
unfolding render
render_int (pos n) = render n
render_int (negsuc n) = "-" <> render (n + 1)

-- int(text), for a text of ASCII digits
unfoldable pub parse_onto : ℕ → String → ℕ
parse_onto acc String.[] = acc
parse_onto acc (String.◌∷◌ c s) = parse_onto (acc * 10 + (code c - b'0')) s

unfoldable pub parse : String → ℕ
unfolding parse_onto
parse s = parse_onto 0 s
