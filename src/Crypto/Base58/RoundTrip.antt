-- ===== src/Crypto/Base58/RoundTrip.antt =====
-- Reading back what `_base58btc_encode` of crypto.py writes.
use mathlib.Core.Path.{subst}
use Prim.Native.Char.{Char, code}
use technocore_safe_agent.Base.{
  ℕ, zero, suc, ◌+◌, ◌-◌, ◌*◌, ◌/◌, ◌%◌, ◌<◌, ◌≤◌, String, Bool, true, false, ◌&&◌, ◌||◌, not,
  Option, none, some, List, [], ◌∷◌, ◌++◌, ◌==◌, nat_eq, string_eq, length, All, ok, ◌≡◌, refl, ap,
  ◌∙◌, arith, Bool-cases, inl, inr, eq_true,
}
use technocore_safe_agent.Crypto.Chars.{lstrip, codes}
use technocore_safe_agent.Crypto.Base58.{
  alphabet, char_at, index_of, strip_zeroes, from_bytes, to_bytes, encode_loop, ones, zeroes,
  encode, decode_loop, decode,
}

-- A test of all numbers below a bound.
all_below : ℕ → (ℕ → Bool) → Bool
all_below zero test = true
all_below (suc n) test = test n && all_below n test

all_below-true : (n i : ℕ) (test : ℕ → Bool) → all_below n test ≡ true → i < n → test i ≡ true
unfolding all_below
all_below-true zero i test h l = absurd (omega arith)
all_below-true (suc n) i test h l = elim (Bool-cases (i == n)) [
  | inl same ↦
      (let back : n ≡ i = ground arith in
        let here : test n ≡ true = ground arith in subst (λ (j : ℕ). test j ≡ true) back here)
  | inr other ↦ all_below-true n i test (ground arith) (ground arith)
]

abbrev is_index : ℕ → Option ℕ → Bool
is_index i none = false
is_index i (some j) = j == i

is_index-eq : (i : ℕ) (found : Option ℕ) → is_index i found ≡ true → found ≡ some i
is_index-eq i none h = cc
is_index-eq i (some j) h = ground arith

digits_checked :
    all_below 58 (λ i. is_index i (index_of (code (char_at alphabet i)) alphabet)) ≡ true
unfolding all_below index_of char_at
digits_checked = refl

not_ones_checked : all_below 58 (λ i. i == 0 || not (code (char_at alphabet i) == b'1')) ≡ true
unfolding all_below char_at
not_ones_checked = refl

index_of-char_at : (i : ℕ) → i < 58 → index_of (code (char_at alphabet i)) alphabet ≡ some i
index_of-char_at i h = is_index-eq i _ (all_below-true 58 i _ digits_checked h)

decode_loop-step :
    (number digit : ℕ) (c : Char) (rest : String)
    → index_of (code c) alphabet ≡ some digit
    → decode_loop number (String.◌∷◌ c rest) ≡ decode_loop (number * 58 + digit) rest
unfolding decode_loop
decode_loop-step number digit c rest h = rw (h, decode_loop) refl

decode_loop-encode_loop :
    (fuel n : ℕ) (rest : String)
    → n ≤ fuel
    → decode_loop 0 (encode_loop fuel n rest) ≡ decode_loop n rest
unfolding encode_loop
decode_loop-encode_loop zero n rest h = ap (λ (k : ℕ). decode_loop k rest) (omega arith)
decode_loop-encode_loop (suc fuel) n rest h = elim (Bool-cases (n == 0)) [
  | inl empty ↦ rw empty (ap (λ (k : ℕ). decode_loop k rest) (ground arith))
  | inr more ↦ rw more (
      decode_loop-encode_loop fuel (n / 58) _ (ground arith)
      ∙ decode_loop-step (n / 58) (n % 58) (char_at alphabet (n % 58)) rest
          (index_of-char_at (n % 58) (omega arith))
      ∙ ap (λ (k : ℕ). decode_loop k rest) (omega arith))
]

to_bytes-fuel : (f g n : ℕ) (rest : List ℕ) → n ≤ f → n ≤ g → to_bytes f n rest ≡ to_bytes g n rest
unfolding to_bytes
to_bytes-fuel zero zero n rest h k = refl
to_bytes-fuel zero (suc g) n rest h k = let empty : (n == 0) ≡ true = ground arith in rw empty refl
to_bytes-fuel (suc f) zero n rest h k = let empty : (n == 0) ≡ true = ground arith in rw empty refl
to_bytes-fuel (suc f) (suc g) n rest h k = elim (Bool-cases (n == 0)) [
  | inl empty ↦ rw empty refl
  | inr more ↦ rw more (to_bytes-fuel f g (n / 256) (n % 256 ∷ rest) (ground arith) (ground arith))
]

to_bytes-last :
    (fuel acc b : ℕ) (rest : List ℕ)
    → b < 256
    → 0 < acc
    → acc * 256 + b ≤ fuel
    → to_bytes fuel (acc * 256 + b) rest ≡ to_bytes acc acc (b ∷ rest)
unfolding to_bytes
to_bytes-last zero acc b rest small some_acc h = absurd (omega arith)
to_bytes-last (suc fuel) acc b rest small some_acc h =
    let more : ((acc * 256 + b) == 0) ≡ false = ground arith in
    let high : (acc * 256 + b) / 256 ≡ acc = omega arith in
    let low : (acc * 256 + b) % 256 ≡ b = omega arith in
    rw (more, high, low) (to_bytes-fuel fuel acc acc (b ∷ rest) (omega arith) (omega arith))

to_bytes-from_bytes :
    (acc : ℕ) (bytes rest : List ℕ)
    → 0 < acc
    → All (λ b. b < 256) bytes
    → to_bytes (from_bytes acc bytes) (from_bytes acc bytes) rest ≡ to_bytes acc acc (bytes ++ rest)
unfolding from_bytes
to_bytes-from_bytes acc [] rest h all = refl
to_bytes-from_bytes acc (b ∷ bytes) rest h all =
    to_bytes-from_bytes (acc * 256 + b) bytes rest (omega arith) all.1
    ∙ to_bytes-last (acc * 256 + b) acc b (bytes ++ rest) all.0 h (omega arith)

-- The first digit of a number that is not 0.
StartsWith : String → Type 0
StartsWith String.[] = ⊥
StartsWith (String.◌∷◌ c s) = (code c == b'1') ≡ false

not_one : (digit : ℕ) → 0 < digit → digit < 58 → (code (char_at alphabet digit) == b'1') ≡ false
not_one digit h k = let checked = all_below-true 58 digit _ not_ones_checked k in ground arith

encode_loop-first :
    (fuel n : ℕ) (rest : String) → 0 < n → n ≤ fuel → StartsWith (encode_loop fuel n rest)
unfolding encode_loop StartsWith
encode_loop-first zero n rest h k = absurd (omega arith)
encode_loop-first (suc fuel) n rest h k =
    let more : (n == 0) ≡ false = ground arith in
    rw more (elim (Bool-cases (n / 58 == 0)) [
      | inl last ↦ first_digit fuel (n / 58) (n % 58) rest last (ground arith) (omega arith)
      | inr large ↦ encode_loop-first fuel (n / 58) _ (ground arith) (ground arith)
    ])
  where
    first_digit :
        (fuel m digit : ℕ) (rest : String)
        → (m == 0) ≡ true
        → 0 < digit
        → digit < 58
        → StartsWith (encode_loop fuel m (String.◌∷◌ (char_at alphabet digit) rest))
    first_digit zero m digit rest e h k = not_one digit h k
    first_digit (suc fuel) m digit rest e h k = rw e (not_one digit h k)

lstrip-first : (s : String) → StartsWith s → lstrip (λ c. c == b'1') s ≡ s
unfolding lstrip StartsWith
lstrip-first String.[] h = absurd h
lstrip-first (String.◌∷◌ c s) h = rw h refl

from_bytes-grows : (acc : ℕ) (bytes : List ℕ) → acc ≤ from_bytes acc bytes
unfolding from_bytes
from_bytes-grows acc [] = omega arith
from_bytes-grows acc (b ∷ bytes) = omega (arith, from_bytes-grows (acc * 256 + b) bytes)

not_empty : (s : String) → StartsWith s → (s == "") ≡ false
unfolding StartsWith
not_empty String.[] h = absurd h
not_empty (String.◌∷◌ c s) h = elim (Bool-cases ((String.◌∷◌ c s) == "")) [
  | inl same ↦ let absent = eq_true (String.◌∷◌ c s) "" same in cc
  | inr other ↦ other
]

encode-eq :
    (first : ℕ) (bytes : List ℕ)
    → encode (suc first ∷ bytes)
      ≡ encode_loop (from_bytes (suc first) bytes) (from_bytes (suc first) bytes) ""
unfolding encode strip_zeroes ones from_bytes
encode-eq first bytes =
    let none_zero : suc (length bytes) - suc (length bytes) ≡ 0 = omega arith in
    rw none_zero
      (ap (λ (k : ℕ). encode_loop (from_bytes k bytes) (from_bytes k bytes) "") (omega arith))

decode-eq :
    (text : String) (number : ℕ)
    → StartsWith text
    → decode_loop 0 text ≡ ok number
    → decode text ≡ ok (to_bytes number number [])
unfolding decode zeroes
decode-eq text number starts h =
    let no_ones : length (codes text) - length (codes text) ≡ 0 = omega arith in
    simp (not_empty text starts, h, lstrip-first text starts, no_ones) refl

to_bytes-zero : (fuel : ℕ) (rest : List ℕ) → to_bytes fuel 0 rest ≡ rest
unfolding to_bytes
to_bytes-zero zero rest = refl
to_bytes-zero (suc fuel) rest = refl

to_bytes-one : (b : ℕ) (rest : List ℕ) → 0 < b → b < 256 → to_bytes b b rest ≡ b ∷ rest
unfolding to_bytes
to_bytes-one zero rest h k = absurd (omega arith)
to_bytes-one (suc b) rest h k =
    let some_b : (suc b == 0) ≡ false = ground arith in
    let high : suc b / 256 ≡ 0 = omega arith in
    let low : suc b % 256 ≡ suc b = omega arith in
    rw (some_b, high, low) (to_bytes-zero b (suc b ∷ rest))

append-empty : (bytes : List ℕ) → bytes ++ [] ≡ bytes
append-empty [] = refl
append-empty (b ∷ bytes) = ap (λ bs. b ∷ bs) (append-empty bytes)

-- Bytes of which the first is not 0 are read back from their base58 text.
pub decode-encode :
    (first : ℕ) (bytes : List ℕ)
    → 0 < first
    → All (λ b. b < 256) (first ∷ bytes)
    → decode (encode (first ∷ bytes)) ≡ ok (first ∷ bytes)
unfolding decode_loop
decode-encode zero bytes h all = absurd (omega arith)
decode-encode (suc first) bytes h all =
    let number = from_bytes (suc first) bytes in
    ap decode (encode-eq first bytes)
    ∙ decode-eq (encode_loop number number "") number
        (encode_loop-first number number "" (omega (arith, from_bytes-grows (suc first) bytes))
          (omega arith))
        (decode_loop-encode_loop number number "" (omega arith) ∙ decode_loop-empty number)
    ∙ ap ok (to_bytes-from_bytes (suc first) bytes [] (omega arith) all.1 ∙ last)
  where
    decode_loop-empty : (n : ℕ) → decode_loop n "" ≡ ok n
    decode_loop-empty n = refl

    last : to_bytes (suc first) (suc first) (bytes ++ []) ≡ suc first ∷ bytes
    last =
        to_bytes-one (suc first) (bytes ++ []) (omega arith) all.0
        ∙ ap (λ bs. suc first ∷ bs) (append-empty bytes)
