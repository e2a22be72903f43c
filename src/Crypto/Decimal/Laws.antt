-- ===== src/Crypto/Decimal/Laws.antt =====
-- Reading back what `str` writes: `parse` after `render`.
use Prim.Native.Char.{code}
use technocore_safe_agent.Base.{
  ℕ, zero, suc, ◌-◌, ◌/◌, ◌%◌, ◌≤◌, ◌<◌, String, ◌≡◌, refl, ap, arith, ltb, Bool-cases, inl, inr,
}
use technocore_safe_agent.Crypto.Decimal.{digit_char, render_onto, render, parse_onto, parse}

-- The digit of a number below ten stands for that number.
code-digit_char : (d : ℕ) → d < 10 → code (digit_char d) - b'0' ≡ d
unfolding digit_char
code-digit_char zero h = refl
code-digit_char (suc zero) h = refl
code-digit_char (suc (suc zero)) h = refl
code-digit_char (suc (suc (suc zero))) h = refl
code-digit_char (suc (suc (suc (suc zero)))) h = refl
code-digit_char (suc (suc (suc (suc (suc zero))))) h = refl
code-digit_char (suc (suc (suc (suc (suc (suc zero)))))) h = refl
code-digit_char (suc (suc (suc (suc (suc (suc (suc zero))))))) h = refl
code-digit_char (suc (suc (suc (suc (suc (suc (suc (suc zero)))))))) h = refl
code-digit_char (suc (suc (suc (suc (suc (suc (suc (suc (suc zero))))))))) h = refl
code-digit_char (suc (suc (suc (suc (suc (suc (suc (suc (suc (suc d)))))))))) h =
    absurd (omega arith)

parse_onto-render_onto :
    (fuel n : ℕ) (rest : String)
    → n ≤ fuel
    → parse_onto 0 (render_onto fuel n rest) ≡ parse_onto n rest
unfolding parse_onto render_onto
parse_onto-render_onto zero n rest h =
    ap (λ (k : ℕ). parse_onto k rest) (omega (arith, code-digit_char (n % 10) (omega arith)))
parse_onto-render_onto (suc fuel) n rest h = elim (Bool-cases (ltb n 10)) [
  | inl small ↦ rw small (ap (λ (k : ℕ). parse_onto k rest) (ground (arith, code-digit_char n)))
  | inr large ↦
      rw (large, parse_onto-render_onto fuel (n / 10) _ (ground arith))
        (ap (λ (k : ℕ). parse_onto k rest) (omega (arith, code-digit_char (n % 10) (omega arith))))
]

-- `int(str(n))` is `n`.
pub parse-render : (n : ℕ) → parse (render n) ≡ n
unfolding parse render
parse-render n = parse_onto-render_onto n n "" (omega arith)
