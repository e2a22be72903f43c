-- ===== src/Base/Tests.antt =====
-- Python's `==`, `<`, `in` as Boolean tests, and the conditional.
use Prim.Native.Nat.{ℕ, ◌≤◌, ◌<◌, compare, Ordering}
use Prim.Native.String.{String}
use mathlib.Core.Path.{◌≡◌, refl}
use mathlib.Core.Logic.{◌↔◌, ◌⊎◌, inl, inr}
use mathlib.Core.Bool.{Bool, true, false, not, ◌||◌}
use mathlib.Core.Option.{Option, none, some}
use mathlib.Core.List.{List, [], ◌∷◌}
use native.Mathlib.Omega.{arith}
use text.Mathlib.Text
use text.Mathlib.TextEquality.{eq_iff}

abbrev pub ltb : ℕ → ℕ → Bool
ltb a b = elim (compare a b) [ Ordering.lt ↦ true | _ ↦ false ]

abbrev pub leb : ℕ → ℕ → Bool
leb a b = elim (compare a b) [ Ordering.gt ↦ false | _ ↦ true ]

abbrev pub nat_equal : ℕ → ℕ → Bool
nat_equal a b = elim (compare a b) [ Ordering.eq ↦ true | _ ↦ false ]

pub nat_equal_iff : (a b : ℕ) → (nat_equal a b ≡ true) ↔ (a ≡ b)
nat_equal_iff a b = ground arith

abbrev pub bool_equal : Bool → Bool → Bool
bool_equal true b = b
bool_equal false b = not b

pub bool_equal_iff : (a b : Bool) → (bool_equal a b ≡ true) ↔ (a ≡ b)
bool_equal_iff true b = ground arith
bool_equal_iff false b = ground arith

infix 1 if◌then◌else◌
abbrev pub if◌then◌else◌ {ℓ} : {A : Type ℓ} → Bool → A → A → A
if true then x else y = x
if false then x else y = y

pub record Eq {ℓ} (A : Type ℓ) : Type ℓ where
  pub equal : A → A → Bool
  pub equal_iff : (x y : A) → (equal x y ≡ true) ↔ (x ≡ y)

instance abbrev pub nat_eq : Eq ℕ
nat_eq = record { equal = nat_equal; equal_iff = nat_equal_iff }

instance abbrev pub string_eq : Eq String
string_eq = record { equal = Text.◌==◌; equal_iff = eq_iff }

instance abbrev pub bool_eq : Eq Bool
bool_eq = record { equal = bool_equal; equal_iff = bool_equal_iff }

infix 50 ◌==◌
abbrev pub ◌==◌ {ℓ} : {A : Type ℓ} ⦃eq : Eq A⦄ → A → A → Bool
◌==◌ ⦃eq⦄ = eq.equal

module _ {ℓ} {A : Type ℓ} ⦃e : Eq A⦄ where
  -- a in xs
  abbrev pub contains : List A → A → Bool
  contains [] wanted = false
  contains (first ∷ rest) wanted = wanted == first || contains rest wanted

  unfoldable pub option_equal : Option A → Option A → Bool
  option_equal none none = true
  option_equal none (some b) = false
  option_equal (some a) none = false
  option_equal (some a) (some b) = a == b

  unfoldable pub list_equal : List A → List A → Bool
  list_equal [] [] = true
  list_equal [] (b ∷ ys) = false
  list_equal (a ∷ xs) [] = false
  list_equal (a ∷ xs) (b ∷ ys) = if a == b then list_equal xs ys else false

  pub option_equal_iff : (a b : Option A) → (option_equal a b ≡ true) ↔ (a ≡ b)
  unfolding option_equal
  option_equal_iff none none = ground arith
  option_equal_iff none (some b) = ground arith
  option_equal_iff (some a) none = ground arith
  option_equal_iff (some a) (some b) = ground (arith, e.equal_iff a b)

  pub list_equal_iff : (xs ys : List A) → (list_equal xs ys ≡ true) ↔ (xs ≡ ys)
  unfolding list_equal
  list_equal_iff [] [] = ground arith
  list_equal_iff [] (b ∷ ys) = ground arith
  list_equal_iff (a ∷ xs) [] = ground arith
  list_equal_iff (a ∷ xs) (b ∷ ys) = ground (arith, e.equal_iff a b, list_equal_iff xs ys)

  instance unfoldable pub option_eq : Eq (Option A)
  unfolding option_equal
  option_eq = record { equal = option_equal; equal_iff = option_equal_iff }

  instance unfoldable pub list_eq : Eq (List A)
  unfolding list_equal
  list_eq = record { equal = list_equal; equal_iff = list_equal_iff }

pub eq_refl {ℓ} : {A : Type ℓ} ⦃e : Eq A⦄ (a : A) → (a == a) ≡ true
eq_refl ⦃e⦄ a = (e.equal_iff a a).1 refl

pub eq_true {ℓ} : {A : Type ℓ} ⦃e : Eq A⦄ (a b : A) → (a == b) ≡ true → a ≡ b
eq_true ⦃e⦄ a b = (e.equal_iff a b).0

pub ltb→lt : (a b : ℕ) → ltb a b ≡ true → a < b
ltb→lt a b h = ground arith

pub leb→le : (a b : ℕ) → leb a b ≡ true → a ≤ b
leb→le a b h = ground arith

pub str_eq_iff : (s t : String) → ((s == t) ≡ true) ↔ (s ≡ t)
str_eq_iff = eq_iff

-- To split on a computed value and keep the equation.
pub Bool-cases : (b : Bool) → (b ≡ true) ⊎ (b ≡ false)
Bool-cases true = inl refl
Bool-cases false = inr refl

pub Option-cases {ℓ} : {A : Type ℓ} (o : Option A) → (o ≡ none) ⊎ ((a : A) × (o ≡ some a))
Option-cases none = inl refl
Option-cases (some a) = inr (a, refl)

abbrev pub is_none {ℓ} : {A : Type ℓ} → Option A → Bool
is_none none = true
is_none (some a) = false
