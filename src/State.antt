-- ===== src/State.antt =====
-- The `AgentState` of state.py: cursors, nonces, generations and quota histories, in memory.
-- Sequences, clocks and windows are ℕ, so `_require_nonnegative_int` passes on them.
pub mod Payload
pub mod Store
pub mod Laws
pub mod Durability
use technocore_safe_agent.Base.{
  ℕ, ◌+◌, ◌-◌, ◌^◌, String, Bool, true, false, ◌&&◌, Option, none, some, List, [], ◌∷◌, ◌++◌, ◌==◌,
  nat_eq, string_eq, leb, ltb, length, keep_if, last, max, if◌then◌else◌, Result, ok, err,
  state_error,
}
use technocore_safe_agent.Base.Dict.{Dict, lookup, insert, get_or}

pub record AgentState : Type 0 where
  pub cursors : Dict ℕ
  pub nonces : Dict ℕ
  pub generations : Dict ℕ
  pub capability_requests : Dict (List ℕ)

abbrev pub fresh : AgentState
fresh = record { cursors = []; nonces = []; generations = []; capability_requests = [] }

abbrev pub max_nonce : ℕ
max_nonce = 9_999_999_999_999_999_999

unfoldable pub cursor_for : AgentState → String → ℕ
cursor_for s room = get_or room 0 s.cursors

unfoldable pub advance_cursor : String → ℕ → AgentState → Result AgentState
unfolding cursor_for
advance_cursor room sequence s =
    if ltb sequence (cursor_for s room)
    then err state_error
    else ok (record s { cursors = insert room sequence s.cursors })

unfoldable pub generation_for : AgentState → String → Option ℕ
generation_for s room = lookup room s.generations

abbrev pub moved_back : Option ℕ → ℕ → Bool
moved_back none generation = false
moved_back (some previous) generation = ltb generation previous

abbrev pub moved_forward : Option ℕ → ℕ → Bool
moved_forward none generation = false
moved_forward (some previous) generation = ltb previous generation

unfoldable pub observe_generation : String → ℕ → AgentState → Result (Bool × AgentState)
observe_generation room generation s =
    let previous = lookup room s.generations in
    if moved_back previous generation
    then err state_error
    else ok (
      moved_forward previous generation,
      record s { generations = insert room generation s.generations },
    )

unfoldable pub next_nonce : String → ℕ → AgentState → Result (ℕ × AgentState)
next_nonce room clock_value s =
    let selected = max clock_value (get_or room 0 s.nonces + 1) in
    if ltb max_nonce selected
    then err state_error
    else ok (selected, record s { nonces = insert room selected s.nonces })

unfoldable pub observe_nonce : String → ℕ → AgentState → AgentState
observe_nonce room nonce s = record s {
  nonces = insert room (max (get_or room 0 s.nonces) nonce) s.nonces;
}

-- max(now, existing[-1] if existing else now)
abbrev pub effective_now : ℕ → List ℕ → ℕ
effective_now now existing = elim (last existing) [ none ↦ now | some latest ↦ max now latest ]

-- timestamp > now - window_seconds, where Python's difference may be negative
abbrev pub within : ℕ → ℕ → ℕ → Bool
within now window_seconds timestamp = ltb now (timestamp + window_seconds)

unfoldable pub capability_request_count : AgentState → String → ℕ → ℕ → Result ℕ
capability_request_count s did now window_seconds =
    if window_seconds == 0
    then err state_error
    else let existing = get_or did [] s.capability_requests in
      ok (length (keep_if (within (effective_now now existing) window_seconds) existing))

abbrev pub unless_empty : String → List ℕ → Dict (List ℕ) → Dict (List ℕ)
unless_empty did [] retained = retained
unless_empty did (t ∷ ts) retained = (did, t ∷ ts) ∷ retained

-- The dict that `_prune_capability_requests` retains.
unfoldable pub prune : ℕ → ℕ → Dict (List ℕ) → Dict (List ℕ)
prune now window_seconds [] = []
prune now window_seconds ((did, timestamps) ∷ rest) =
    unless_empty did (keep_if (within now window_seconds) timestamps)
      (prune now window_seconds rest)

-- The history of one principal after a reservation.
abbrev pub reserved : ℕ → ℕ → List ℕ → List ℕ
reserved now window_seconds existing =
    let effective = effective_now now existing in
    keep_if (within effective window_seconds) existing ++ effective ∷ []

unfoldable pub reserve_capability_request : String → ℕ → ℕ → AgentState → Result AgentState
unfolding prune
reserve_capability_request did now window_seconds s =
    if did == ""
    then err state_error
    else if window_seconds == 0
    then err state_error
    else let requests = prune now window_seconds s.capability_requests in
      ok (record s {
        capability_requests =
            insert did (reserved now window_seconds (get_or did [] requests)) requests;
      })
