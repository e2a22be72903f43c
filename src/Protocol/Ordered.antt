-- ===== src/Protocol/Ordered.antt =====
-- `_parse_snapshot` of protocol.py: what holds of every snapshot that it accepts.
use mathlib.Core.Path.{subst}
use technocore_safe_agent.Base.{
  ℕ, ◌+◌, ◌≤◌, String, Bool, true, false, ◌≡◌, ◌&&◌, ◌>>◌, Error, refl, none, some, List, [], ◌∷◌,
  ok, arith, leb, last, All, is_strictly_sorted, require, response_error, >>=-eq-ok, if◌then◌else◌,
}
use technocore_safe_agent.Json.{Fields, get, has, nat, nonnegative}
use technocore_safe_agent.Protocol.{
  RoomSnapshot, sequences, in_range, parse_snapshot, parse_messages, same_room, or_response_error,
  items_of, first_seq_value, no_items,
}

-- The numbers rise strictly, from `low` on.
abbrev pub Rising : ℕ → List ℕ → Type 0
Rising low [] = Unit
Rising low (n ∷ ns) = (low ≤ n) × Rising (n + 1) ns

abbrev StartsAt : ℕ → List ℕ → Type 0
StartsAt low [] = Unit
StartsAt low (n ∷ ns) = low ≤ n

abbrev EndsAt : ℕ → List ℕ → Type 0
EndsAt high [] = Unit
EndsAt high (n ∷ []) = n ≤ high
EndsAt high (n ∷ m ∷ ns) = EndsAt high (m ∷ ns)

is_strictly_sorted-Rising :
    (low : ℕ) (ns : List ℕ) → is_strictly_sorted ns ≡ true → StartsAt low ns → Rising low ns
is_strictly_sorted-Rising low [] sorted start = tt
is_strictly_sorted-Rising low (n ∷ []) sorted start = (start, tt)
is_strictly_sorted-Rising low (n ∷ m ∷ ns) sorted start =
    (start, is_strictly_sorted-Rising (n + 1) (m ∷ ns) (ground arith) (ground arith))

is_strictly_sorted-All :
    (high : ℕ) (ns : List ℕ)
    → is_strictly_sorted ns ≡ true
    → EndsAt high ns
    → All (λ n. n ≤ high) ns
is_strictly_sorted-All high [] sorted end = tt
is_strictly_sorted-All high (n ∷ []) sorted end = (end, tt)
is_strictly_sorted-All high (n ∷ m ∷ ns) sorted end =
    let rest = is_strictly_sorted-All high (m ∷ ns) (ground arith) end in
    (ground (arith, rest.0), rest)

in_range-StartsAt : (low high : ℕ) (ns : List ℕ) → in_range low high ns ≡ true → StartsAt low ns
in_range-StartsAt low high [] h = tt
in_range-StartsAt low high (n ∷ ns) h = ground arith

last_at_most-EndsAt :
    (high : ℕ) (ns : List ℕ)
    → (elim (last ns) [ none ↦ true | some t ↦ leb t high ]) ≡ true
    → EndsAt high ns
last_at_most-EndsAt high [] h = tt
last_at_most-EndsAt high (n ∷ []) h = ground arith
last_at_most-EndsAt high (n ∷ m ∷ ns) h = last_at_most-EndsAt high (m ∷ ns) h

and-left : (a b : Bool) → (a && b) ≡ true → a ≡ true
and-left true b h = refl
and-left false b h = h

in_range-EndsAt : (low high : ℕ) (ns : List ℕ) → in_range low high ns ≡ true → EndsAt high ns
in_range-EndsAt low high [] h = tt
in_range-EndsAt low high (n ∷ ns) h =
    last_at_most-EndsAt high (n ∷ ns)
      (and-left (elim (last (n ∷ ns)) [ none ↦ true | some t ↦ leb t high ]) (leb low n) h)

-- The room is the one that was asked for, and the sequences rise within the advertised range.
pub record IsOrdered (expected_room : String) (snapshot : RoomSnapshot) : Type 0 where
  pub in_room : snapshot.room ≡ expected_room
  pub rising : Rising snapshot.first_seq (sequences snapshot.messages)
  pub bounded : All (λ n. n ≤ snapshot.last_seq) (sequences snapshot.messages)

require-ok : (b : Bool) (e : Error) {u : Unit {0}} → require b e ≡ ok u → b ≡ true
require-ok true e h = refl
require-ok false e h = cc

checked-IsOrdered :
    (snapshot accepted : RoomSnapshot)
    → (require (is_strictly_sorted (sequences snapshot.messages)) response_error
        >> (require
              (in_range snapshot.first_seq snapshot.last_seq (sequences snapshot.messages))
              response_error
            >> ok snapshot))
      ≡ ok accepted
    → IsOrdered snapshot.room accepted
checked-IsOrdered snapshot accepted h =
    let ns = sequences snapshot.messages in
    let (_, e₁, h₁) = >>=-eq-ok (require (is_strictly_sorted ns) response_error) _ h in
    let (_, e₂, h₂) =
      >>=-eq-ok (require (in_range snapshot.first_seq snapshot.last_seq ns) response_error) _ h₁ in
    let sorted = require-ok (is_strictly_sorted ns) response_error e₁ in
    let ranged = require-ok (in_range snapshot.first_seq snapshot.last_seq ns) response_error e₂ in
    subst (IsOrdered snapshot.room) (ok-eq h₂) (record {
      in_room = refl;
      rising =
          is_strictly_sorted-Rising snapshot.first_seq ns sorted
            (in_range-StartsAt snapshot.first_seq snapshot.last_seq ns ranged);
      bounded =
          is_strictly_sorted-All snapshot.last_seq ns sorted
            (in_range-EndsAt snapshot.first_seq snapshot.last_seq ns ranged);
    })
  where
    ok-eq : {a b : RoomSnapshot} → ok a ≡ ok b → a ≡ b
    ok-eq e = cc

-- A snapshot that `_parse_snapshot` accepts is of the room that was asked for; its messages'
-- sequences rise strictly, from `first_seq` at the least to `last_seq` at the most.
pub parse_snapshot-IsOrdered :
    (payload : Fields) (expected_room : String) (snapshot : RoomSnapshot)
    → parse_snapshot payload expected_room ≡ ok snapshot
    → IsOrdered expected_room snapshot
unfolding parse_snapshot
parse_snapshot-IsOrdered payload expected_room snapshot h =
    let (_, _, h₁) =
      >>=-eq-ok (require (same_room (get "room" payload) expected_room) response_error) _ h in
    let (last_seq, _, h₂) =
      >>=-eq-ok (or_response_error (nonnegative (get "last_seq" payload))) _ h₁ in
    let (raw, _, h₃) = >>=-eq-ok (or_response_error (items_of (get "messages" payload))) _ h₂ in
    let (first_seq, _, h₄) =
      >>=-eq-ok (or_response_error (nonnegative (first_seq_value payload (no_items raw)))) _ h₃ in
    let (generation, _, h₅) =
      >>=-eq-ok
        (or_response_error
          (nonnegative (if has payload "generation" then get "generation" payload else nat 0)))
        _ h₄ in
    let (messages, _, h₆) = >>=-eq-ok (parse_messages raw) _ h₅ in
    checked-IsOrdered
      (record {
        room = expected_room;
        first_seq = first_seq;
        last_seq = last_seq;
        messages = messages;
        generation = generation;
      })
      snapshot h₆
