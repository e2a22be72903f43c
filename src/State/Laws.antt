-- ===== src/State/Laws.antt =====
-- What the operations of `AgentState` promise: nonces grow, cursors and generations do not go back.
use technocore_safe_agent.Base.{
  ℕ, ◌+◌, ◌≤◌, ◌<◌, String, ◌≡◌, refl, ok, some, arith, false, ltb, max, ◌==◌, string_eq, eq_refl,
}
use technocore_safe_agent.Base.Dict.{Dict, lookup, insert, get_or, lookup-insert}
use technocore_safe_agent.State.{
  AgentState, max_nonce, next_nonce, observe_nonce, advance_cursor, cursor_for,
}

pub lookup-insert_same {ℓ} :
    {V : Type ℓ} (k : String) (v : V) (d : Dict V) → lookup k (insert k v d) ≡ some v
lookup-insert_same k v d = rw (lookup-insert k k v d, eq_refl k) refl

pub get_or-insert_same : (k : String) (v : ℕ) (d : Dict ℕ) → get_or k 0 (insert k v d) ≡ v
get_or-insert_same k v d = rw (get_or, lookup-insert_same k v d) refl

abbrev pub stored_nonce : String → AgentState → ℕ
stored_nonce room s = get_or room 0 s.nonces

-- What a state keeps besides its nonces.
pub record SameButNonces (s t : AgentState) : Type 0 where
  pub cursors : t.cursors ≡ s.cursors
  pub generations : t.generations ≡ s.generations
  pub capability_requests : t.capability_requests ≡ s.capability_requests

pub record IsNextNonce (room : String) (clock_value : ℕ) (s : AgentState) (n : ℕ) (t : AgentState)
    : Type 0 where
  pub grows : stored_nonce room s < n
  pub not_before_clock : clock_value ≤ n
  pub fits : n ≤ max_nonce
  pub remembered : stored_nonce room t ≡ n
  pub others_kept :
      (other : String) → (room == other) ≡ false → stored_nonce other t ≡ stored_nonce other s
  pub frame : SameButNonces s t

next_nonce-eq :
    (room : String) (clock_value : ℕ) (s : AgentState) (n : ℕ) (t : AgentState)
    → next_nonce room clock_value s ≡ ok (n, t)
    → (ltb max_nonce n ≡ false)
      × (n ≡ max clock_value (stored_nonce room s + 1))
      × (t ≡ record s { nonces = insert room n s.nonces })
unfolding next_nonce
next_nonce-eq room clock_value s n t h = ground arith

-- A nonce that `next_nonce` selects is above the stored one of its room, at least the clock's value
-- and at most 19 digits long; it is the one stored now, and the state is otherwise the same.
pub next_nonce-IsNextNonce :
    (room : String) (clock_value : ℕ) (s : AgentState) (n : ℕ) (t : AgentState)
    → next_nonce room clock_value s ≡ ok (n, t)
    → IsNextNonce room clock_value s n t
next_nonce-IsNextNonce room clock_value s n t h =
    let (fits, same, kept) = next_nonce-eq room clock_value s n t h in
    record {
      grows = omega (arith, same);
      not_before_clock = omega (arith, same);
      fits = ground (arith, fits);
      remembered = rw kept (get_or-insert_same room n s.nonces);
      others_kept = λ other h. rw (kept, get_or, lookup-insert other room n s.nonces, h) refl;
      frame = rw kept record { cursors = refl; generations = refl; capability_requests = refl };
    }

-- Recovery never lowers the stored nonce of the room.
pub observe_nonce-le :
    (room : String) (nonce : ℕ) (s : AgentState)
    → (stored_nonce room s ≤ stored_nonce room (observe_nonce room nonce s))
      × (nonce ≤ stored_nonce room (observe_nonce room nonce s))
unfolding observe_nonce
observe_nonce-le room nonce s =
    let same = get_or-insert_same room (max (stored_nonce room s) nonce) s.nonces in
    (omega (arith, same), omega (arith, same))

pub advance_cursor-eq :
    (room : String) (sequence : ℕ) (s t : AgentState)
    → advance_cursor room sequence s ≡ ok t
    → (cursor_for s room ≤ sequence) × (t ≡ record s { cursors = insert room sequence s.cursors })
unfolding advance_cursor
advance_cursor-eq room sequence s t h = ground arith

pub cursor_for-advance_cursor :
    (room : String) (sequence : ℕ) (s t : AgentState)
    → advance_cursor room sequence s ≡ ok t
    → cursor_for t room ≡ sequence
unfolding cursor_for
cursor_for-advance_cursor room sequence s t h =
    rw ((advance_cursor-eq room sequence s t h).1) (get_or-insert_same room sequence s.cursors)
