-- ===== src/World.antt =====
-- What the agent's process reads and writes: the files, the network, the clocks. What the outside
-- answers is a script: each call takes its next entry, so a theorem for every script is one for
-- every behaviour of the operating system, of the server and of the clocks.
use technocore_safe_agent.Base.{
  ℕ, String, Bool, true, Option, none, some, List, [], ◌∷◌, Error, Result, ok, err, value_error,
  if◌then◌else◌, ◌≡◌, arith,
}
use technocore_safe_agent.Json.{Value}
use technocore_safe_agent.State.{AgentState}

-- A file that holds JSON. `content` is none where its text is not JSON.
pub record File : Type 0 where
  pub is_regular : Bool
  -- no permission for the group and for others
  pub is_private : Bool
  pub is_owned : Bool
  -- in bytes
  pub size : ℕ
  -- its bytes are UTF-8
  pub is_utf8 : Bool
  pub content : Option Value

-- A file as the agent writes it, with mode 0600.
abbrev pub written : Value → File
written payload = record {
  is_regular = true;
  is_private = true;
  is_owned = true;
  size = 0;
  is_utf8 = true;
  content = some payload;
}

abbrev decoded : Error → Option Value → Result Value
decoded e none = err e
decoded e (some payload) = ok payload

-- json.loads(path.read_text(encoding="utf-8")), with a JSONDecodeError raised as `e`; a
-- UnicodeDecodeError is a ValueError and passes.
unfoldable pub json_of : Error → File → Result Value
json_of e file = if file.is_utf8 then decoded e file.content else err value_error

pub json_of-eq :
    (e : Error) (file : File) {v : Value} → json_of e file ≡ ok v → file.content ≡ some v
unfolding json_of
json_of-eq e file h = ground (arith, decoded-eq file.content)
  where
    decoded-eq : (c : Option Value) {v : Value} → decoded e c ≡ ok v → c ≡ some v
    decoded-eq none h = cc
    decoded-eq (some v) h = cc

pub record ByteFile : Type 0 where
  pub is_regular : Bool
  pub is_private : Bool
  pub bytes : List ℕ

-- What happens at one call of the operating system: it works, it raises an OSError, or the process
-- dies before it.
pub data Fault : Type 0 where
  works fails crashes : Fault

-- What one HTTP request comes back with: a decoded JSON body, a body that is too large or no JSON,
-- an HTTP error status or a failed connection, or an `http.client.HTTPException` of `urlopen`.
pub data Reply : Type 0 where
  body : Value → Reply
  undecodable : Reply
  failed : Option ℕ → Reply
  broken : Reply

-- A reading of `time.time`: a finite number of at least 0 with its integer part, or anything else.
pub data Reading : Type 0 where
  seconds : ℕ → Reading
  invalid : Reading

-- What `ReceiptIssuer.issue` returns, or the code of its GitHubReceiptError.
pub data Issue : Type 0 where
  issued : String → Issue
  refused : String → Issue

-- A signed write, as it stands in the request's URL.
pub record Envelope : Type 0 where
  pub room : String
  pub did : String
  pub signature : String
  pub nonce : String
  pub text : String

pub record World : Type 0 where
  -- the AgentState object that the parts of one process share
  pub state : AgentState
  pub state_file : Option File
  pub journal_file : Option File
  pub audit_file : Option ByteFile
  -- the signed writes that have left the process, the latest first
  pub wire : List Envelope
  pub faults : List Fault
  pub replies : List Reply
  pub clock_ns : List ℕ
  pub clock : List Reading
  -- formatted UTC timestamps
  pub datetimes : List String
  -- the capability policy file at each time that it is opened
  pub policy_files : List (Option File)
  pub issues : List Issue
  -- how many bytes each `os.write` of the audit log takes
  pub writes : List ℕ

abbrev pub next_or {ℓ} : {A : Type ℓ} → A → List A → A
next_or default [] = default
next_or default (a ∷ _) = a

abbrev pub others {ℓ} : {A : Type ℓ} → List A → List A
others [] = []
others (_ ∷ rest) = rest
