-- ===== src/WorkReceipt/Run.antt =====
-- work_receipt.py: the checkout and the execution that a work receipt is made of. What git and the
-- command do is an argument.
use technocore_safe_agent.Base.{
  ℕ, ◌+◌, String, Bool, true, ◌&&◌, Option, none, some, List, [], ◌∷◌, ◌++◌, ◌==◌, nat_eq,
  string_eq, not, leb, length, if◌then◌else◌, Result, ok, err, work_receipt_error, require, ◌>>=◌,
  ◌>>◌,
}
use technocore_safe_agent.Json.{Value, str}
use technocore_safe_agent.Json.Int.{ℤ, pos, negsuc}
use technocore_safe_agent.Crypto.{strip}
use technocore_safe_agent.Crypto.Chars.{codes, strip_prefix}
use technocore_safe_agent.Crypto.Library.{Primitives}
use technocore_safe_agent.Receipt.{before_suffix, sha_pattern}
use technocore_safe_agent.Github.Url.{parts_of, split_slash}
use technocore_safe_agent.Github.{ends_with}
use technocore_safe_agent.WorkReceipt.{max_output_bytes, validate_repository, validate_command}

pub record Checkout : Type 0 where
  pub root : String
  pub repository : String
  pub commit : String

-- How one run of git ends: its standard output, or no git, a timeout or a failure.
pub data GitRun : Type 0 where
  output : String → GitRun
  failed : GitRun

-- The four runs of one inspection of a checkout.
pub record GitAnswers : Type 0 where
  pub toplevel : GitRun
  pub status : GitRun
  pub head : GitRun
  pub remote : GitRun

-- How the command ends: it does not start, it is killed at the timeout, or it returns its code,
-- negative after a signal.
pub data Process : Type 0 where
  not_started : Process
  killed : Process
  returned : ℤ → Process

-- What an execution shows. The outputs are read in chunks.
pub record Run : Type 0 where
  pub process : Process
  pub stdout : List (List ℕ)
  pub stderr : List (List ℕ)
  -- the formatted texts of the clock
  pub started_at : String
  pub completed_at : String
  -- max(0, round(elapsed * 1000))
  pub duration_ms : ℕ

pub record Execution : Type 0 where
  pub result : String
  pub exit_code : Option ℤ
  pub stdout_sha256 : String
  pub stdout_bytes : ℕ
  pub stderr_sha256 : String
  pub stderr_bytes : ℕ
  pub started_at : String
  pub completed_at : String
  pub duration_ms : ℕ

-- What stands after as many characters.
abbrev pub dropped : List ℕ → String → String
dropped [] s = s
dropped (_ ∷ cs) String.[] = ""
dropped (_ ∷ cs) (String.◌∷◌ _ s) = dropped cs s

-- text.removeprefix(prefix), where there is one
unfoldable pub after_prefix : String → String → Option String
after_prefix prefix text = elim (strip_prefix (codes prefix) (codes text)) [
  | none ↦ none
  | some _ ↦ some (dropped (codes prefix) text)
]

-- The text of as many characters.
abbrev pub kept : List ℕ → String → String
kept [] s = ""
kept (_ ∷ cs) String.[] = ""
kept (_ ∷ cs) (String.◌∷◌ c s) = String.◌∷◌ c (kept cs s)

-- path[:-4] if path.endswith(".git")
unfoldable pub without_git : String → String
without_git path = elim (before_suffix (codes ".git") (codes path)) [
  | none ↦ path
  | some cs ↦ kept cs path
]

module _ (p : Primitives) where
  -- The path of an https URL of github.com; `urlsplit` stands in no try block.
  unfoldable pub https_path : String → Result String
  unfolding after_prefix
  https_path value = do
    parts ← parts_of (p.urlsplit value)
    require
        (parts.scheme == "https"
          && parts.netloc == "github.com"
          && parts.query == ""
          && parts.fragment == "")
        work_receipt_error
    ok (elim (after_prefix "/" parts.path) [ none ↦ parts.path | some path ↦ path ])

  abbrev pub remote_path : String → Result String
  remote_path value = elim (after_prefix "git@github.com:" value) [
    | some path ↦ ok path
    | none ↦ elim (after_prefix "ssh://git@github.com/" value) [
      | some path ↦ ok path
      | none ↦ https_path value
    ]
  ]

  -- `_repository_from_remote`; as many pieces as slashes and one more
  unfoldable pub repository_from_remote : String → Result String
  unfolding https_path after_prefix without_git split_slash
  repository_from_remote remote = do
    found ← remote_path (strip p remote)
    let path = without_git found
    require (length (split_slash path) == 2 && not (ends_with (codes "/") (codes path)))
        work_receipt_error
    validate_repository (str path)

  -- `_git`
  unfoldable pub git : GitRun → Result String
  git (output stdout) = ok (strip p stdout)
  git failed = err work_receipt_error

  abbrev pub is_expected : Option String → String → Bool
  is_expected none commit = true
  is_expected (some expected) commit = commit == expected

  -- `_inspect_checkout`
  unfoldable pub inspect_checkout : Option String → GitAnswers → Result Checkout
  unfolding git repository_from_remote
  inspect_checkout expected_commit answers = do
    root ← git answers.toplevel
    status ← git answers.status
    require (status == "") work_receipt_error
    commit ← git answers.head
    require (sha_pattern commit) work_receipt_error
    require (is_expected expected_commit commit) work_receipt_error
    remote ← git answers.remote
    repository ← repository_from_remote remote
    ok (record { root = root; repository = repository; commit = commit })

  -- `_hash_file`: the bytes read so far and their number.
  unfoldable pub hash_chunks : List ℕ → ℕ → List (List ℕ) → Result (String × ℕ)
  hash_chunks bytes size [] = ok (p.sha256 bytes, size)
  hash_chunks bytes size (chunk ∷ chunks) = do
    require (leb (size + length chunk) max_output_bytes) work_receipt_error
    hash_chunks (bytes ++ chunk) (size + length chunk) chunks

  -- (result, exit_code) of a process that has started
  unfoldable pub ended : Process → Result (String × Option ℤ)
  ended not_started = err work_receipt_error
  ended killed = ok ("timed_out", none)
  ended (returned (pos n)) = ok (if n == 0 then "passed" else "failed", some (pos n))
  ended (returned (negsuc n)) = ok ("failed", some (negsuc n))

  -- `_execute`
  unfoldable pub execute : Value → Run → Result Execution
  unfolding hash_chunks ended
  execute command run = do
    validate_command p command
    (result, exit_code) ← ended run.process
    (stdout_sha256, stdout_bytes) ← hash_chunks [] 0 run.stdout
    (stderr_sha256, stderr_bytes) ← hash_chunks [] 0 run.stderr
    ok (record {
      result = result;
      exit_code = exit_code;
      stdout_sha256 = stdout_sha256;
      stdout_bytes = stdout_bytes;
      stderr_sha256 = stderr_sha256;
      stderr_bytes = stderr_bytes;
      started_at = run.started_at;
      completed_at = run.completed_at;
      duration_ms = run.duration_ms;
    })
