-- ===== src/Recovery/Retry.antt =====
-- `recover_delivery` of delivery_recovery.py: what it sends, and what its events report.
use technocore_safe_agent.Base.{
  ℕ, String, Bool, true, false, ◌≡◌, refl, ap, ◌&&◌, not, Option, none, some, List, [], ◌∷◌, ◌⊎◌,
  inl, inr, Error, ok, length, keep_if, string_eq, assertion_error,
}
use technocore_safe_agent.Json.{nat}
use technocore_safe_agent.Crypto.Library.{Primitives}
use technocore_safe_agent.World.{World, Envelope, Reply}
use technocore_safe_agent.Exec.{pure, ◌>>◌}
use technocore_safe_agent.Exec.Triple.{
  Pred, Triple, Triple-if, bind, handle, weaken, given, returns, raises, Triple-lift, Triple-raise,
  Keeps-bind, Keeps-lift,
}
use technocore_safe_agent.Exec.Frame.{View, view, Stable-view}
use technocore_safe_agent.Protocol.{RoomMessage, RoomSnapshot, sequences}
use technocore_safe_agent.Protocol.Request.{
  TechnocoreClient, envelope_of, acknowledged as acknowledged_by,
}
use technocore_safe_agent.Protocol.Client.{send_signed_message}
use technocore_safe_agent.Delivery.{DeliveryRecord, Status, pending, acknowledged, matches}
use technocore_safe_agent.Delivery.Records.{Describes}
use technocore_safe_agent.Delivery.Durability.{LoadedFrom}
use technocore_safe_agent.Agent.Actions.{Keeps-request, Triple-post}
use technocore_safe_agent.Recovery.Reads.{Unread, IsNextReply, Triple-read_room}
use technocore_safe_agent.Agent.Evidence.{envelope_of-IsMadeOf}
use technocore_safe_agent.Recovery.Settle.{Settled, Triple-finalize_recovery}
use technocore_safe_agent.Recovery.{
  Recovered, delivery_acknowledged, delivery_history_incomplete, duplicate_delivery_records,
  delivery_found, delivery_not_found, delivery_recovered, delivery_retried, is_complete_history,
  uncertain_retry, finalize_acknowledged, recover_acknowledged, retry_exact_envelope,
  recover_absent, recover_found, recover_matches, recover_pending, recover_by_status,
  finalize_recovery,
}

-- The pending record of the journal is sent once more, as it was signed, after the next reply was a
-- snapshot of the room with a complete history since its input and no match of the record.
pub record Retried (p : Primitives) (room : String) (allowed : Bool) (old : View)
    (replies : List Reply) (wire : List Envelope) : Type 0 where
  pub record' : DeliveryRecord
  pub loaded : LoadedFrom p old.journal_file (some record')
  pub is_pending : record'.status ≡ pending
  pub is_allowed : allowed ≡ true
  pub snapshot : RoomSnapshot
  pub read : IsNextReply replies room snapshot
  pub complete : is_complete_history snapshot record'.input_sequence ≡ true
  pub absent : keep_if (matches record') snapshot.messages ≡ []
  pub envelope : Envelope
  pub sent_once : wire ≡ envelope ∷ old.wire
  pub described : Describes record' envelope

-- Nothing is sent but such a retry.
abbrev pub SentAtMost : Primitives → String → Bool → View → List Reply → List Envelope → Type 0
SentAtMost p room allowed old replies wire =
    (wire ≡ old.wire) ⊎ Retried p room allowed old replies wire

-- What an event reports has happened; the events that settle nothing leave all as it was.
abbrev pub Reported : Primitives → String → View → Recovered → View → Type 0
Reported p room old (delivery_recovered n) v =
    (d : DeliveryRecord) × LoadedFrom p old.journal_file (some d) × Settled room d v
Reported p room old (delivery_retried n) v =
    (d : DeliveryRecord) × LoadedFrom p old.journal_file (some d) × Settled room d v
Reported p room old _ v = v ≡ old

module _ (p : Primitives) (room : String) (apply confirm_retry : Bool) (old : View)
    (replies : List Reply) where
  abbrev Sent : List Envelope → Type 0
  Sent wire = SentAtMost p room (apply && confirm_retry) old replies wire

  abbrev pub Start : Pred
  Start w = view w ≡ old

  abbrev pub Asked : Pred
  Asked w = Start w × Unread replies w

  abbrev pub Outcome : Recovered → Pred
  Outcome result w = Sent w.wire × Reported p room old result (view w)

  abbrev pub Failed : Error → Pred
  Failed _ w = Sent w.wire

  unsent : (w : World) → Start w → Sent w.wire
  unsent w h = inl (ap View.wire h)

  module _ (d : DeliveryRecord) (loaded : LoadedFrom p old.journal_file (some d)) where
    Triple-finalized :
        (n : ℕ) (result : Recovered)
        → ((w : World) → Settled room d (view w) → Reported p room old result (view w))
        → Triple (λ w. Sent w.wire) (do finalize_recovery p room d n; pure result) Outcome Failed
    Triple-finalized n result report =
        bind (λ _ w. Sent w.wire × Settled room d (view w))
          (Triple-finalize_recovery Sent p room d n) λ _. returns result λ w h. (h.0, report w h.1)

    acknowledged_as :
        (sequence : Option ℕ)
        → Triple Start (finalize_acknowledged p room d sequence) Outcome Failed
    acknowledged_as none = raises assertion_error unsent
    acknowledged_as (some n) =
        weaken (Triple-finalized n (delivery_recovered n) (λ w s. (d, loaded, s))) unsent
          (λ _ w h. h) (λ _ w h. h)

    Triple-recover_acknowledged : Triple Start (recover_acknowledged p room d apply) Outcome Failed
    unfolding recover_acknowledged
    Triple-recover_acknowledged =
        Triple-if (not apply) (returns delivery_acknowledged λ w h. (unsent w h, h))
          (acknowledged_as d.reply_sequence)

    Triple-recover_found : (n : ℕ) → Triple Start (recover_found p room d n apply) Outcome Failed
    unfolding recover_found
    Triple-recover_found n =
        Triple-if (not apply) (returns (delivery_found n) λ w h. (unsent w h, h)) (
          weaken (Triple-finalized n (delivery_recovered n) (λ w s. (d, loaded, s))) unsent
            (λ _ w h. h) (λ _ w h. h))

    module _ (client : TechnocoreClient) (is_pending : d.status ≡ pending) (snapshot : RoomSnapshot)
        (read : IsNextReply replies room snapshot)
        (complete : is_complete_history snapshot d.input_sequence ≡ true) where
      Triple-retry :
          (apply && confirm_retry) ≡ true
          → keep_if (matches d) snapshot.messages ≡ []
          → Triple Start (retry_exact_envelope p client room d) (λ _ w. Sent w.wire) Failed
      unfolding retry_exact_envelope send_signed_message
      Triple-retry allowed absent =
          handle Failed
            (bind
              (λ e w.
                Start w × (envelope_of p client room d.did d.signature (nat d.nonce) d.text ≡ ok e))
              (weaken
                (Triple-lift (envelope_of p client room d.did d.signature (nat d.nonce) d.text))
                (λ w h. h) (λ _ w h. h) (λ _ w h. unsent w h))
              λ e. given λ made.
                bind (λ _ w. Sent w.wire)
                  (Triple-post e λ w h. inr (retried allowed absent e made w h))
                  λ _.
                    Keeps-bind (Keeps-request (Stable-view λ v. Sent v.wire))
                      λ payload. Keeps-lift (acknowledged_by e payload))
            λ e. Triple-raise (uncertain_retry e)
        where
          retried :
              (apply && confirm_retry) ≡ true
              → keep_if (matches d) snapshot.messages ≡ []
              → (e : Envelope)
              → envelope_of p client room d.did d.signature (nat d.nonce) d.text ≡ ok e
              → (w : World) → Start w
              → Retried p room (apply && confirm_retry) old replies (e ∷ w.wire)
          retried allowed absent e made w h =
              let m = envelope_of-IsMadeOf p client room d.did d.signature d.nonce d.text e made in
              record {
                record' = d;
                loaded = loaded;
                is_pending = is_pending;
                is_allowed = allowed;
                snapshot = snapshot;
                read = read;
                complete = complete;
                absent = absent;
                envelope = e;
                sent_once = ap (λ v. e ∷ v.wire) h;
                described = record {
                  did = m.did_eq;
                  signature = m.signature_eq;
                  nonce = m.nonce_eq;
                  text = m.text_eq;
                };
              }

      Triple-recover_absent :
          keep_if (matches d) snapshot.messages ≡ []
          → (confirmed : Bool) → (apply && confirm_retry) ≡ confirmed
          → Triple Start (recover_absent p client room d confirmed) Outcome Failed
      unfolding recover_absent
      Triple-recover_absent absent false e = returns delivery_not_found λ w h. (unsent w h, h)
      Triple-recover_absent absent true e =
          bind (λ _ w. Sent w.wire) (Triple-retry e absent)
            λ posted.
              Triple-finalized posted.seq (delivery_retried posted.seq) (λ w s. (d, loaded, s))

      Triple-recover_matches :
          (found : List RoomMessage)
          → keep_if (matches d) snapshot.messages ≡ found
          → Triple Start (recover_matches p client room d found apply confirm_retry) Outcome Failed
      unfolding recover_matches
      Triple-recover_matches [] e = Triple-recover_absent e (apply && confirm_retry) refl
      Triple-recover_matches (m ∷ []) e = Triple-recover_found m.seq
      Triple-recover_matches (m ∷ n ∷ ms) e =
          returns (duplicate_delivery_records (sequences (m ∷ n ∷ ms))) λ w h. (unsent w h, h)

    Triple-recover_pending :
        (client : TechnocoreClient)
        → d.status ≡ pending
        → (snapshot : RoomSnapshot) → IsNextReply replies room snapshot
        → (complete : Bool) → is_complete_history snapshot d.input_sequence ≡ complete
        → Triple Start (recover_pending p client room d snapshot apply confirm_retry) Outcome Failed
    unfolding recover_pending
    Triple-recover_pending client is_pending snapshot read true e = rw e (
        Triple-recover_matches client is_pending snapshot read e
          (keep_if (matches d) snapshot.messages) refl)
    Triple-recover_pending client is_pending snapshot read false e = rw e (
        returns (delivery_history_incomplete (length (keep_if (matches d) snapshot.messages)))
          λ w h. (unsent w h, h))

    pub Triple-by_status :
        (client : TechnocoreClient) (status : Status)
        → d.status ≡ status
        → Triple Asked (recover_by_status p client room d status apply confirm_retry) Outcome Failed
    Triple-by_status client acknowledged e =
        weaken Triple-recover_acknowledged (λ w h. h.0) (λ _ w h. h) (λ _ w h. h)
    Triple-by_status client pending e =
        bind (λ snapshot w. Start w × IsNextReply replies room snapshot)
          (weaken
            (Triple-read_room replies (Stable-view λ v. v ≡ old) client room d.input_sequence 0 200)
            (λ w h. h) (λ _ w h. h) (λ _ w h. unsent w h))
          λ snapshot. given λ read.
            Triple-recover_pending client e snapshot read
              (is_complete_history snapshot d.input_sequence) refl
