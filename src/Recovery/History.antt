-- ===== src/Recovery/History.antt =====
-- `_is_complete_history` of delivery_recovery.py: no sequence since the input is missing.
use technocore_safe_agent.Base.{
  ℕ, zero, suc, ◌+◌, ◌-◌, ◌≤◌, ◌<◌, true, ◌≡◌, nat_eq, list_eq, range_from, contains, arith, ◌⊎◌,
  inl, inr, eq_true,
}
use technocore_safe_agent.Protocol.{RoomSnapshot, sequences}
use technocore_safe_agent.Recovery.{is_complete_history}

contains-range_from :
    (start count k : ℕ) → start ≤ k → k < start + count → contains (range_from start count) k ≡ true
contains-range_from start zero k h l = absurd (omega arith)
contains-range_from start (suc count) k h l =
    ground (arith, contains-range_from (start + 1) count k)

complete_cases :
    (snapshot : RoomSnapshot) (input_sequence : ℕ)
    → is_complete_history snapshot input_sequence ≡ true
    → (snapshot.last_seq ≡ input_sequence)
      ⊎ ((sequences snapshot.messages
            ≡ range_from (input_sequence + 1) (snapshot.last_seq - input_sequence))
          × (input_sequence ≤ snapshot.last_seq))
unfolding is_complete_history
complete_cases snapshot input_sequence h = ground (
  arith,
  eq_true (sequences snapshot.messages)
      (range_from (input_sequence + 1) (snapshot.last_seq - input_sequence)),
)

-- In a complete history every sequence after the input, up to the room's last, is that of a message.
pub is_complete_history-contains :
    (snapshot : RoomSnapshot) (input_sequence k : ℕ)
    → is_complete_history snapshot input_sequence ≡ true
    → input_sequence < k
    → k ≤ snapshot.last_seq
    → contains (sequences snapshot.messages) k ≡ true
is_complete_history-contains snapshot input_sequence k h after upto =
    elim (complete_cases snapshot input_sequence h) [
      | inl same ↦ absurd (omega (arith, same))
      | inr (listed, _) ↦ rw listed (
          contains-range_from (input_sequence + 1) (snapshot.last_seq - input_sequence) k
            (omega arith) (omega arith))
    ]
