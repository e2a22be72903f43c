-- ===== src/State/Payload.antt =====
-- The JSON of a state file: the payload that `save` writes and the checks of `load`.
use Prim.Native.Char.{code}
use technocore_safe_agent.Base.{
  ℕ, String, Bool, true, false, Option, none, some, List, [], ◌∷◌, ◌==◌, nat_eq, string_eq, ltb,
  length, is_sorted, if◌then◌else◌, Result, ok, err, state_error, protocol_value_as, ◌>>=◌, ◌>>◌,
  require,
}
use technocore_safe_agent.Base.Dict.{Dict, insert}
use technocore_safe_agent.Json.{
  is_text, Value, Items, Fields, str, list, obj, nil, cons, end, field, get, has, nat, nonnegative,
  items, keys,
}
use technocore_safe_agent.Crypto.{validate_did}
use technocore_safe_agent.State.{AgentState}

-- The order of Python's str: by code points.
unfoldable pub text_lt : String → String → Bool
text_lt s String.[] = false
text_lt String.[] (String.◌∷◌ d t) = true
text_lt (String.◌∷◌ c s) (String.◌∷◌ d t) =
    let rest = text_lt s t in if code c == code d then rest else ltb (code c) (code d)

module _ {ℓ} {V : Type ℓ} where
  unfoldable pub insert_sorted : String → V → Dict V → Dict V
  insert_sorted k v [] = (k, v) ∷ []
  insert_sorted k v ((j, w) ∷ d) =
      if text_lt j k then (j, w) ∷ insert_sorted k v d else (k, v) ∷ (j, w) ∷ d

  -- dict(sorted(d.items())); the keys differ, so no two values are compared
  unfoldable pub sorted : Dict V → Dict V
  unfolding insert_sorted text_lt
  sorted [] = []
  sorted ((k, v) ∷ d) = insert_sorted k v (sorted d)

  unfoldable pub fields_of : (V → Value) → Dict V → Fields
  fields_of f [] = end
  fields_of f ((k, v) ∷ d) = field k (f v) (fields_of f d)

unfoldable pub numbers : List ℕ → Items
numbers [] = nil
numbers (n ∷ ns) = cons (nat n) (numbers ns)

abbrev schema : String
schema = "technocore-safe-agent-state-v1"

abbrev pub generations_field : AgentState → Fields → Fields
generations_field s rest = elim s.generations [
  | [] ↦ rest
  | _ ∷ _ ↦ field "generations" (obj (fields_of nat (sorted s.generations))) rest
]

abbrev pub capability_requests_field : AgentState → Fields
capability_requests_field s = elim s.capability_requests [
  | [] ↦ end
  | _ ∷ _ ↦
      field "capability_requests"
        (obj (fields_of (λ ts. list (numbers ts)) (sorted s.capability_requests))) end
]

-- The payload of `save`.
unfoldable pub to_payload : AgentState → Value
unfolding sorted fields_of numbers
to_payload s = obj (
    field "schema" (str schema) (
      field "cursors" (obj (fields_of nat (sorted s.cursors))) (
        field "nonces" (obj (fields_of nat (sorted s.nonces)))
          (generations_field s (capability_requests_field s)))))

abbrev pub or_state_error : Option ℕ → Result ℕ
or_state_error none = err state_error
or_state_error (some n) = ok n

unfoldable pub number_fields : Fields → Dict ℕ → Result (Dict ℕ)
number_fields end checked = ok checked
number_fields (field key item rest) checked =
    if key == ""
    then err state_error
    else do n ← or_state_error (nonnegative item); number_fields rest (insert key n checked)

unfoldable pub nonnegative_int_map : Value → Result (Dict ℕ)
unfolding number_fields nonnegative
nonnegative_int_map (obj fs) = number_fields fs []
nonnegative_int_map _ = err state_error

unfoldable pub timestamps_of : Items → Result (List ℕ)
timestamps_of nil = ok []
timestamps_of (cons item rest) = do
  t ← or_state_error (nonnegative item)
  ts ← timestamps_of rest
  ok (t ∷ ts)

unfoldable pub history : Value → Result (List ℕ)
unfolding timestamps_of nonnegative
history (list raw_timestamps) =
    if ltb 1_000 (length (items raw_timestamps)) then err state_error else do
      timestamps ← timestamps_of raw_timestamps
      if is_sorted timestamps then ok timestamps else err state_error
history _ = err state_error

unfoldable pub history_fields : Fields → Dict (List ℕ) → Result (Dict (List ℕ))
unfolding history
history_fields end checked = ok checked
history_fields (field did raw_timestamps rest) checked = do
  valid_did ← protocol_value_as state_error (validate_did did)
  timestamps ← history raw_timestamps
  history_fields rest (insert valid_did timestamps checked)

unfoldable pub capability_request_map : Value → Result (Dict (List ℕ))
unfolding history_fields
capability_request_map (obj fs) =
    if ltb 128 (length (keys fs)) then err state_error else history_fields fs []
capability_request_map _ = err state_error

-- payload.get(key, {})
abbrev pub get_or_empty : String → Fields → Value
get_or_empty key fs = if has fs key then get key fs else obj end

-- `load`, from the decoded JSON on.
unfoldable pub from_payload : Value → Result AgentState
unfolding nonnegative_int_map capability_request_map get has
from_payload (obj fs) = do
  require (is_text schema (get "schema" fs)) state_error
  cursors ← nonnegative_int_map (get "cursors" fs)
  nonces ← nonnegative_int_map (get "nonces" fs)
  generations ← nonnegative_int_map (get_or_empty "generations" fs)
  capability_requests ← capability_request_map (get_or_empty "capability_requests" fs)
  ok (record {
    cursors = cursors;
    nonces = nonces;
    generations = generations;
    capability_requests = capability_requests;
  })
from_payload _ = err state_error
