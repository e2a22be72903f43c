-- ===== src/Tests/Work.antt =====
-- A work receipt and a second execution of its command, and runs of the code on them.
use technocore_safe_agent.Base.{
  ℕ, none, some, [], ◌∷◌, nat_eq, string_eq, if◌then◌else◌, list_eq, ok, refl, ◌≡◌,
}
use technocore_safe_agent.Json.{
  Value, Fields, str, list, obj, nil, cons, end, field, get, has, keys_are, nonnegative,
}
use technocore_safe_agent.Json.Int.{pos}
use technocore_safe_agent.Crypto.{
  strip, validate_did, did_pattern, did_from_private_key, sign_detached, signature_pattern,
  verify_detached_signature, public_key_from_did,
}
use technocore_safe_agent.Crypto.Chars.{
  is_digit, strip_prefix, rstrip, lstrip, is_hex, is_base58, is_urlsafe,
}
use technocore_safe_agent.Crypto.Base58.{encode, decode, decode_loop, index_of, to_bytes, zeroes}
use technocore_safe_agent.Crypto.Library.{Primitives}
use technocore_safe_agent.Delivery.{sha256_pattern}
use technocore_safe_agent.Github.{
  is_alnum, owner_pattern, repository_pattern, ends_with, valid_repository,
}
use technocore_safe_agent.Github.Url.{split_slash}
use technocore_safe_agent.Receipt.{sha_pattern, before_suffix, timestamp}
use technocore_safe_agent.WorkReceipt.{
  require_sha256, require_nonnegative_int, validate_repository, commit_of, equals_zero,
  has_exit_code, parse_timestamp, argument_size, total_size, validate_command,
  validate_work_payload, validate_countersignature_payload,
}
use technocore_safe_agent.WorkReceipt.Envelope.{
  WorkReceiptSummary, execution_sha256, countersignatures_of, verify_signed_wrapper, agrees,
  verify_counter, verify_counters, verify_envelope,
}
use technocore_safe_agent.WorkReceipt.Run.{
  Checkout, Execution, GitAnswers, output, returned, after_prefix, without_git,
  repository_from_remote, git, inspect_checkout, hash_chunks, ended, execute,
}
use technocore_safe_agent.WorkReceipt.Issue.{
  Scene, work_payload, envelope_of, signed_wrapper, check_signer, observe, counter_payload,
  is_countersigned_by, is_same_timeout, is_same_execution, exit_equal, int_equal,
  countersign_work_receipt,
}
use technocore_safe_agent.Tests.Data.{library, key, own_did, peer_did, signature86, zeroes64}
use technocore_safe_agent.Tests.Receipts.{zeroes40, noon}

abbrev pub digits_library : Primitives
digits_library = record library { category = λ c. if is_digit c then "Nd" else "Ll" }

abbrev checkout : Checkout
checkout = record { root = "/work"; repository = "o/r"; commit = zeroes40 }

abbrev command : Value
command = list (cons (str "make") (cons (str "test") nil))

abbrev execution : Execution
execution = record {
  result = "passed";
  exit_code = some (pos 0);
  stdout_sha256 = zeroes64;
  stdout_bytes = 2;
  stderr_sha256 = zeroes64;
  stderr_bytes = 0;
  started_at = noon;
  completed_at = noon;
  duration_ms = 5;
}

abbrev signed : Fields → Value
signed payload = obj (
    field "payload" (obj payload)
      (field "payload_sha256" (str zeroes64) (field "signature" (str signature86) end)))

unfoldable pub worked : Fields
unfolding work_payload
worked = work_payload peer_did checkout command 1000 execution

unfoldable pub envelope : Fields
unfolding worked envelope_of
envelope = envelope_of (signed worked) nil

unfoldable countersignature : Fields
unfolding counter_payload
countersignature = counter_payload digits_library own_did zeroes64 zeroes64 noon

unfoldable pub countersigned : Fields
unfolding worked envelope_of countersignature
countersigned = envelope_of (signed worked) (cons (signed countersignature) nil)

abbrev answers : GitAnswers
answers = record {
  toplevel = output "/work";
  status = output "";
  head = output zeroes40;
  remote = output "git@github.com:o/r.git";
}

-- The command prints two bytes and ends with exit code 0.
abbrev pub scene : Scene
scene = record {
  before = answers;
  run = record {
    process = returned (pos 0);
    stdout = (111 ∷ 107 ∷ []) ∷ [];
    stderr = [];
    started_at = noon;
    completed_at = noon;
    duration_ms = 7;
  };
  after = answers;
}

abbrev summary_with : Fields → ℕ → WorkReceiptSummary
summary_with payload n = record {
  payload = payload;
  countersignatures = n;
  matching_countersignatures = n;
}

abbrev pub summary : WorkReceiptSummary
summary = summary_with worked 1

pub verify_countersigned : verify_envelope digits_library countersigned ≡ ok summary
unfolding verify_envelope countersigned worked work_payload envelope_of countersignature
    counter_payload get has keys_are verify_signed_wrapper validate_did did_pattern strip_prefix
    is_base58 verify_detached_signature signature_pattern is_urlsafe public_key_from_did decode
    decode_loop index_of to_bytes zeroes validate_work_payload validate_repository split_slash
    owner_pattern is_alnum valid_repository repository_pattern ends_with list_eq commit_of
    sha_pattern is_hex validate_command total_size argument_size require_nonnegative_int nonnegative
    has_exit_code equals_zero require_sha256 sha256_pattern parse_timestamp timestamp
    countersignatures_of execution_sha256 verify_counters verify_counter agrees
    validate_countersignature_payload
verify_countersigned = refl

pub countersign_run :
    countersign_work_receipt digits_library envelope own_did key none scene noon ≡ ok countersigned
unfolding countersign_work_receipt verify_envelope envelope countersigned worked work_payload
    envelope_of countersignature counter_payload get has keys_are verify_signed_wrapper validate_did
    did_pattern strip_prefix is_base58 verify_detached_signature signature_pattern is_urlsafe
    public_key_from_did decode decode_loop index_of to_bytes zeroes validate_work_payload
    validate_repository split_slash owner_pattern is_alnum valid_repository repository_pattern
    ends_with list_eq commit_of sha_pattern is_hex validate_command total_size argument_size
    require_nonnegative_int nonnegative has_exit_code equals_zero require_sha256 sha256_pattern
    parse_timestamp timestamp countersignatures_of execution_sha256 verify_counters verify_counter
    agrees validate_countersignature_payload check_signer did_from_private_key encode
    is_countersigned_by is_same_timeout inspect_checkout git strip rstrip lstrip
    repository_from_remote after_prefix without_git before_suffix observe execute ended hash_chunks
    is_same_execution exit_equal int_equal signed_wrapper sign_detached
countersign_run = refl
