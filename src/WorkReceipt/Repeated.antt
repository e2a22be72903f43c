-- ===== src/WorkReceipt/Repeated.antt =====
-- What the tests of a countersigner say of the checkout, of the process and of the receipt.
use mathlib.Core.Path.{subst}
use technocore_safe_agent.Base.{length-append, suc}
use technocore_safe_agent.Base.{
  ℕ, zero, ◌+◌, String, Bool, true, Option, none, some, List, [], ◌∷◌, ◌++◌, ◌==◌, string_eq,
  str_eq_iff, nat_eq, length, leb, ok, work_receipt_error, ◌≡◌, refl, sym, ap, ◌∙◌, arith,
  >>=-eq-ok, ok-injective, require, if◌then◌else◌,
}
use technocore_safe_agent.Json.{Value, Fields, null, int, float, str, bool, get, is_text, nat}
use technocore_safe_agent.Json.Int.{ℤ, pos, negsuc}
use technocore_safe_agent.Json.Laws.{is_text-eq}
use technocore_safe_agent.Crypto.{strip}
use technocore_safe_agent.Crypto.Library.{Primitives}
use technocore_safe_agent.Receipt.{sha_pattern}
use technocore_safe_agent.WorkReceipt.{max_output_bytes, validate_command}
use technocore_safe_agent.WorkReceipt.Run.{
  Checkout, GitRun, output, failed, GitAnswers, Process, not_started, killed, returned, Run,
  Execution, git, is_expected, inspect_checkout, repository_from_remote, hash_chunks, ended,
  execute,
}
use technocore_safe_agent.WorkReceipt.Issue.{is_same_execution, exit_equal, int_equal, is_nat}

-- git printed a text that is this one without the spaces around it.
abbrev pub Prints : Primitives → GitRun → String → Type 0
Prints p run text = (raw : String) × (run ≡ output raw) × (strip p raw ≡ text)

-- git shows a checkout without changes, at the commit, of the repository.
pub record CleanAt (p : Primitives) (commit repository : String) (answers : GitAnswers)
    : Type 0 where
  pub no_changes : Prints p answers.status ""
  pub at_commit : Prints p answers.head commit
  pub remote : String
  pub of_remote : Prints p answers.remote remote
  pub of_repository : repository_from_remote p remote ≡ ok repository

git-Prints :
    (p : Primitives) (run : GitRun) {text : String} → git p run ≡ ok text → Prints p run text
unfolding git
git-Prints p (output raw) h = (raw, refl, ok-injective h)
git-Prints p failed h = cc

required : {b : Bool} {u : Unit} → require b work_receipt_error ≡ ok u → b ≡ true
required {b} e = ground arith

pub inspect_checkout-CleanAt :
    (p : Primitives) (commit : String) (answers : GitAnswers) {checkout : Checkout}
    → inspect_checkout p (some commit) answers ≡ ok checkout
    → (checkout.commit ≡ commit) × CleanAt p commit checkout.repository answers
unfolding inspect_checkout
inspect_checkout-CleanAt p commit answers h =
    let (root, e₁, h₁) = >>=-eq-ok (git p answers.toplevel) _ h in
    let (status, e₂, h₂) = >>=-eq-ok (git p answers.status) _ h₁ in
    let (_, e₃, h₃) = >>=-eq-ok (require (status == "") work_receipt_error) _ h₂ in
    let (found, e₄, h₄) = >>=-eq-ok (git p answers.head) _ h₃ in
    let (_, e₅, h₅) = >>=-eq-ok (require (sha_pattern found) work_receipt_error) _ h₄ in
    let (_, e₆, h₆) =
      >>=-eq-ok (require (is_expected p (some commit) found) work_receipt_error) _ h₅ in
    let (remote, e₇, h₇) = >>=-eq-ok (git p answers.remote) _ h₆ in
    let (repository, e₈, h₈) = >>=-eq-ok (repository_from_remote p remote) _ h₇ in
    let same : found ≡ commit = ground (arith, required e₆, str_eq_iff found commit) in
    let unchanged : status ≡ "" = ground (arith, required e₃, str_eq_iff status "") in
    subst (λ made. (made.commit ≡ commit) × CleanAt p commit made.repository answers)
      (ok-injective h₈)
      (
        same,
        record {
          no_changes = subst (Prints p answers.status) unchanged (git-Prints p answers.status e₂);
          at_commit = subst (Prints p answers.head) same (git-Prints p answers.head e₄);
          remote = remote;
          of_remote = git-Prints p answers.remote e₇;
          of_repository = e₈;
        },
      )

-- All bytes of an output.
abbrev pub joined : List (List ℕ) → List ℕ
joined [] = []
joined (chunk ∷ chunks) = chunk ++ joined chunks

abbrev pub IsHashOf : Primitives → List ℕ → String × ℕ → Type 0
IsHashOf p bytes hashed = (hashed.0 ≡ p.sha256 bytes) × (hashed.1 ≡ length bytes)

append-empty : (xs : List ℕ) → xs ++ [] ≡ xs
append-empty [] = refl
append-empty (x ∷ xs) = ap (λ ys. x ∷ ys) (append-empty xs)

append-append : (xs ys zs : List ℕ) → (xs ++ ys) ++ zs ≡ xs ++ (ys ++ zs)
append-append [] ys zs = refl
append-append (x ∷ xs) ys zs = ap (λ us. x ∷ us) (append-append xs ys zs)

hash_chunks-IsHashOf :
    (p : Primitives) (bytes : List ℕ) (size : ℕ) (chunks : List (List ℕ)) {hashed : String × ℕ}
    → size ≡ length bytes
    → hash_chunks p bytes size chunks ≡ ok hashed
    → IsHashOf p (bytes ++ joined chunks) hashed
unfolding hash_chunks
hash_chunks-IsHashOf p bytes size [] {hashed} same h =
    subst (λ bs. IsHashOf p bs hashed) (sym (append-empty bytes))
      (subst (IsHashOf p bytes) (ok-injective h) (refl, same))
hash_chunks-IsHashOf p bytes size (chunk ∷ chunks) {hashed} same h =
    let (_, _, rest) =
      >>=-eq-ok (require (leb (size + length chunk) max_output_bytes) work_receipt_error) _ h in
    subst (λ bs. IsHashOf p bs hashed) (append-append bytes chunk (joined chunks))
      (hash_chunks-IsHashOf p (bytes ++ chunk) (size + length chunk) chunks
        (omega (arith, same, length-append bytes chunk)) rest)

-- The number that a JSON value is equal to in Python, where False is 0 and True is 1.
abbrev pub IsNumber : ℤ → Value → Type 0
IsNumber code (int n) = n ≡ code
IsNumber code (float (some n)) = n ≡ code
IsNumber code (bool b) = (if b then pos 1 else pos 0) ≡ code
IsNumber code value = ⊥

-- The process ended as the result and the exit code say.
abbrev pub EndedAs : Process → Value → Value → Type 0
EndedAs not_started result exit_code = ⊥
EndedAs killed result exit_code = (result ≡ str "timed_out") × (exit_code ≡ null)
EndedAs (returned (pos zero)) result exit_code =
    (result ≡ str "passed") × IsNumber (pos zero) exit_code
EndedAs (returned code) result exit_code = (result ≡ str "failed") × IsNumber code exit_code

-- The run ended as the payload claims, with outputs of the hashes and the sizes that it claims.
pub record Repeats (p : Primitives) (run : Run) (payload : Fields) : Type 0 where
  pub ending : EndedAs run.process (get "result" payload) (get "exit_code" payload)
  pub stdout_hash : get "stdout_sha256" payload ≡ str (p.sha256 (joined run.stdout))
  pub stdout_size : get "stdout_bytes" payload ≡ nat (length (joined run.stdout))
  pub stderr_hash : get "stderr_sha256" payload ≡ str (p.sha256 (joined run.stderr))
  pub stderr_size : get "stderr_bytes" payload ≡ nat (length (joined run.stderr))

int_equal-eq : (m n : ℤ) → int_equal m n ≡ true → n ≡ m
unfolding int_equal
int_equal-eq (pos m) (pos n) h = ground arith
int_equal-eq (negsuc m) (negsuc n) h = ground arith
int_equal-eq m n h = cc

exit_equal-IsNumber :
    (code : ℤ) (value : Value) → exit_equal (some code) value ≡ true → IsNumber code value
unfolding exit_equal
exit_equal-IsNumber code (int n) h = int_equal-eq code n h
exit_equal-IsNumber code (float (some n)) h = int_equal-eq code n h
exit_equal-IsNumber code (bool b) h = int_equal-eq code (if b then pos 1 else pos 0) h
exit_equal-IsNumber code value h = cc

exit_equal-null : (value : Value) → exit_equal none value ≡ true → value ≡ null
unfolding exit_equal
exit_equal-null null h = refl
exit_equal-null value h = cc

is_nat-eq : (n : ℕ) (value : Value) → is_nat n value ≡ true → value ≡ nat n
is_nat-eq n (int (pos m)) h = ground arith
is_nat-eq n value h = cc

returned_as :
    (code : ℤ) (payload : Fields) (result : String) {end' : String × Option ℤ}
    → (result, some code) ≡ end'
    → is_text end'.0 (get "result" payload) ≡ true
    → exit_equal end'.1 (get "exit_code" payload) ≡ true
    → (get "result" payload ≡ str result) × IsNumber code (get "exit_code" payload)
returned_as code payload result made result_eq exit = (
  is_text-eq result (get "result" payload)
      (subst (λ e. is_text e.0 (get "result" payload) ≡ true) (sym made) result_eq),
  exit_equal-IsNumber code (get "exit_code" payload)
      (subst (λ e. exit_equal e.1 (get "exit_code" payload) ≡ true) (sym made) exit),
)

ended-EndedAs :
    (p : Primitives) (process : Process) (payload : Fields) {end' : String × Option ℤ}
    → ended p process ≡ ok end'
    → is_text end'.0 (get "result" payload) ≡ true
    → exit_equal end'.1 (get "exit_code" payload) ≡ true
    → EndedAs process (get "result" payload) (get "exit_code" payload)
unfolding ended get
ended-EndedAs p not_started payload h result exit = cc
ended-EndedAs p killed payload h result exit =
    let made = ok-injective h in
    (
      is_text-eq "timed_out" (get "result" payload)
          (subst (λ e. is_text e.0 (get "result" payload) ≡ true) (sym made) result),
      exit_equal-null (get "exit_code" payload)
          (subst (λ e. exit_equal e.1 (get "exit_code" payload) ≡ true) (sym made) exit),
    )
ended-EndedAs p (returned (pos zero)) payload h result exit =
    returned_as (pos zero) payload "passed" (ok-injective h) result exit
ended-EndedAs p (returned (pos (suc n))) payload h result exit =
    returned_as (pos (suc n)) payload "failed" (ground (arith, ok-injective h)) result exit
ended-EndedAs p (returned (negsuc n)) payload h result exit =
    returned_as (negsuc n) payload "failed" (ok-injective h) result exit

-- What the payload claims is what the run shows.
pub is_same_execution-Repeats :
    (p : Primitives) (command : Value) (run : Run) (payload : Fields) {e : Execution}
    → execute p command run ≡ ok e
    → is_same_execution e payload ≡ true
    → Repeats p run payload
unfolding execute is_same_execution get
is_same_execution-Repeats p command run payload {e} h same =
    let (_, _, h₁) = >>=-eq-ok (validate_command p command) _ h in
    let (end', e₂, h₂) = >>=-eq-ok (ended p run.process) _ h₁ in
    let (stdout, e₃, h₃) = >>=-eq-ok (hash_chunks p [] 0 run.stdout) _ h₂ in
    let (stderr, e₄, h₄) = >>=-eq-ok (hash_chunks p [] 0 run.stderr) _ h₃ in
    let made = ok-injective h₄ in
    let out = hash_chunks-IsHashOf p [] 0 run.stdout refl e₃ in
    let error = hash_chunks-IsHashOf p [] 0 run.stderr refl e₄ in
    record {
      ending =
          ended-EndedAs p run.process payload e₂
            (subst (λ r. is_text r (get "result" payload) ≡ true) (sym (ap Execution.result made))
              (ground arith))
            (subst (λ r. exit_equal r (get "exit_code" payload) ≡ true)
              (sym (ap Execution.exit_code made)) (ground arith));
      stdout_hash =
          is_text-eq e.stdout_sha256 (get "stdout_sha256" payload) (ground arith)
          ∙ ap str (sym (ap Execution.stdout_sha256 made) ∙ out.0);
      stdout_size =
          is_nat-eq e.stdout_bytes (get "stdout_bytes" payload) (ground arith)
          ∙ ap nat (sym (ap Execution.stdout_bytes made) ∙ out.1);
      stderr_hash =
          is_text-eq e.stderr_sha256 (get "stderr_sha256" payload) (ground arith)
          ∙ ap str (sym (ap Execution.stderr_sha256 made) ∙ error.0);
      stderr_size =
          is_nat-eq e.stderr_bytes (get "stderr_bytes" payload) (ground arith)
          ∙ ap nat (sym (ap Execution.stderr_bytes made) ∙ error.1);
    }
