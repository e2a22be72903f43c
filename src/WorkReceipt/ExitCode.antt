-- ===== src/WorkReceipt/ExitCode.antt =====
-- The result of a work receipt and its exit code.
use technocore_safe_agent.Base.{
  String, true, false, nat_eq, string_eq, ◌≡◌, refl, ◌↔◌, arith, str_eq_iff, contains, List, [],
  ◌∷◌,
}
use technocore_safe_agent.Json.{Value, null, int, str}
use technocore_safe_agent.Json.Int.{pos, negsuc}
use technocore_safe_agent.WorkReceipt.{equals_zero, is_failure_code, is_null, has_exit_code}

abbrev pub results : List String
results = "passed" ∷ "failed" ∷ "timed_out" ∷ []

is_failure_code-nonzero : (v : Value) → is_failure_code v ≡ true → equals_zero v ≡ false
unfolding is_failure_code equals_zero
is_failure_code-nonzero (int (pos n)) h = ground arith
is_failure_code-nonzero (int (negsuc n)) h = refl
is_failure_code-nonzero v h = ground arith

is_null-nonzero : (v : Value) → is_null v ≡ true → equals_zero v ≡ false
unfolding equals_zero
is_null-nonzero null h = refl
is_null-nonzero v h = ground arith

-- A receipt's result is one of three, and it is "passed" exactly if the exit code equals zero.
pub record SoundResult (result exit_code : Value) : Type 0 where
  pub name : String
  pub is_name : result ≡ str name
  pub known : contains results name ≡ true
  pub passed : (name ≡ "passed") ↔ (equals_zero exit_code ≡ true)

pub has_exit_code-SoundResult :
    (result exit_code : Value)
    → has_exit_code result exit_code ≡ true
    → SoundResult result exit_code
unfolding has_exit_code
has_exit_code-SoundResult (str name) exit_code h = record {
  name = name;
  is_name = refl;
  known = ground arith;
  passed = ground (
    arith,
    str_eq_iff name "passed",
    is_failure_code-nonzero exit_code,
    is_null-nonzero exit_code,
  );
}
has_exit_code-SoundResult result exit_code h = ground arith
