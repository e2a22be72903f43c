-- ===== src/Recovery/Reads.antt =====
-- The reply of the room that the recovery reads is the next one that the process receives: nothing
-- before that read takes a reply.
use mathlib.Core.Path.{subst}
use technocore_safe_agent.Base.{
  String, List, Bool, ℕ, none, some, Option, leb, ltb, ◌&&◌, Error, Result, ok, err, ◌≡◌, refl,
  delivery_error, state_error, protocol_value_error,
}
use technocore_safe_agent.Json.{Fields}
use technocore_safe_agent.Crypto.{validate_room}
use technocore_safe_agent.Crypto.Library.{Primitives}
use technocore_safe_agent.State.Payload
use technocore_safe_agent.State.Store as Store
use technocore_safe_agent.World.{
  World, File, Fault, works, fails, crashes, Reply, failed, next_or, json_of,
}
use technocore_safe_agent.Exec.{Exec, require, os_call, outcome_of}
use technocore_safe_agent.Exec.Triple.{
  Pred, Ends, Triple, Keeps, bind, weaken, given, Triple-lift, Keeps-bind, Keeps-gets, Keeps-lift,
  Keeps-pure, Keeps-require, Keeps-try_except,
}
use technocore_safe_agent.Exec.Frame.{Stable, Keeps-os_error_as}
use technocore_safe_agent.Protocol.{RoomSnapshot, parse_snapshot}
use technocore_safe_agent.Protocol.Request.{TechnocoreClient}
use technocore_safe_agent.Protocol.Client.{decoded, request_json, read_room}
use technocore_safe_agent.Delivery.{from_payload}
use technocore_safe_agent.Delivery.Journal.{guarded_call, load_file, load}
use technocore_safe_agent.Agent.Evidence.{validate_room-eq}

-- Two triples of one action.
both-Ends :
    {A : Type 0} (Q Q' : A → Pred) (E E' : Error → Pred) (r : Result A × World)
    → Ends Q E r
    → Ends Q' E' r
    → Ends (λ a w. Q a w × Q' a w) (λ e w. E e w × E' e w) r
both-Ends Q Q' E E' (ok a, w) h k = (h, k)
both-Ends Q Q' E E' (err e, w) h k = (h, k)

pub both :
    {A : Type 0} {P P' : Pred} {m : Exec A} {Q Q' : A → Pred} {E E' : Error → Pred}
    → Triple P m Q E
    → Triple P' m Q' E'
    → Triple (λ w. P w × P' w) m (λ a w. Q a w × Q' a w) (λ e w. E e w × E' e w)
both {m} {Q} {Q'} {E} {E'} h k = record {
  at = λ w x. both-Ends Q Q' E E' (m w) (h.at w x.0) (k.at w x.1);
}

-- The replies that are still to come.
module _ (replies : List Reply) where
  abbrev pub Unread : Pred
  Unread w = w.replies ≡ replies

  call_Ends :
      (fault : Fault) (w : World)
      → Unread w
      → Ends {A = Unit {0}} (λ _. Unread) (λ _. Unread) (outcome_of fault, w)
  call_Ends works w h = h
  call_Ends fails w h = h
  call_Ends crashes w h = h

  Unread-os_call : Keeps Unread os_call
  unfolding os_call
  Unread-os_call = record { at = λ w h. call_Ends (next_or works w.faults) _ h }

  Unread-guarded_call : Keeps Unread guarded_call
  unfolding guarded_call
  Unread-guarded_call = Keeps-try_except Unread-os_call λ e. Keeps-os_error_as delivery_error e

  Unread-load_file : (p : Primitives) (file : Option File) → Keeps Unread (load_file p file)
  unfolding load_file
  Unread-load_file p none = Keeps-pure none
  Unread-load_file p (some file) = Keeps-bind Unread-guarded_call λ _.
      Keeps-bind (Keeps-require file.is_private delivery_error) λ _.
        Keeps-bind Unread-guarded_call λ _.
          Keeps-bind (Keeps-lift (json_of delivery_error file)) λ payload.
            Keeps-bind (Keeps-lift (from_payload p payload)) λ loaded. Keeps-pure (some loaded)

  pub Unread-load : (p : Primitives) → Keeps Unread (load p)
  unfolding load
  Unread-load p = Keeps-bind (Keeps-gets (λ w. w.journal_file)) λ file. Unread-load_file p file

  Unread-load_state_file : (file : Option File) → Keeps Unread (Store.load_file file)
  unfolding Store.load_file
  Unread-load_state_file none = Keeps-pure _
  Unread-load_state_file (some file) =
      Keeps-bind (Keeps-try_except Unread-os_call (λ e. Keeps-os_error_as state_error e)) λ _.
        Keeps-bind (Keeps-lift (json_of state_error file))
          λ payload. Keeps-lift (Payload.from_payload payload)

  pub Unread-load_state : Keeps Unread Store.load
  unfolding Store.load
  Unread-load_state =
      Keeps-bind (Keeps-gets (λ w. w.state_file)) λ file. Unread-load_state_file file

  -- The snapshot is what the next reply says of the room.
  abbrev pub IsNextReply : String → RoomSnapshot → Type 0
  IsNextReply room snapshot =
      (payload : Fields) × (decoded (next_or (failed none) replies) ≡ ok payload)
      × (parse_snapshot payload room ≡ ok snapshot)

  reply_Ends :
      (P : Pred) (x : Result Fields) (w : World)
      → P w
      → Ends {A = Fields} (λ a w'. P w' × (x ≡ ok a)) (λ _. P) (x, w)
  reply_Ends P (ok a) w h = (h, refl)
  reply_Ends P (err e) w h = h

  module _ {P : Pred} (s : Stable P) where
    Triple-next_reply :
        Triple
          (λ w. P w × Unread w)
          request_json
          (λ payload w. P w × (decoded (next_or (failed none) replies) ≡ ok payload))
          (λ _. P)
    unfolding request_json
    Triple-next_reply = record {
      at = λ w h.
          rw (h.1) (reply_Ends P (decoded (next_or (failed none) replies)) _ (s.replies w _ h.0));
    }

    pub Triple-read_room :
        (client : TechnocoreClient) (room : String) (since wait limit : ℕ)
        → Triple
            (λ w. P w × Unread w)
            (read_room client room since wait limit)
            (λ snapshot w. P w × IsNextReply room snapshot)
            (λ _. P)
    unfolding read_room
    Triple-read_room client room since wait limit =
        bind (λ valid w. (P w × Unread w) × (validate_room room ≡ ok valid))
          (weaken (Triple-lift (validate_room room)) (λ w h. h) (λ _ w h. h) (λ _ w h. h.0))
          λ valid. given λ e.
            bind (λ _ w. P w × Unread w) (asked (leb wait 10_000))
              λ _.
                bind (λ _ w. P w × Unread w) (asked (ltb wait client.timeout))
                  λ _.
                    bind (λ _ w. P w × Unread w) (asked (leb 1 limit && leb limit 200))
                      λ _.
                        bind
                          (λ payload w.
                            P w × (decoded (next_or (failed none) replies) ≡ ok payload))
                          Triple-next_reply
                          λ payload. given λ read.
                            weaken (Triple-lift (parse_snapshot payload valid)) (λ w h. h)
                              (λ snapshot w h. (
                                h.0,
                                (
                                  payload,
                                  read,
                                  subst (λ (x : String). parse_snapshot payload x ≡ ok snapshot)
                                      (validate_room-eq room e) h.1,
                                ),
                              ))
                              (λ _ w h. h)
      where
        asked :
            (b : Bool)
            → Triple
                (λ w. P w × Unread w)
                (require b protocol_value_error)
                (λ _ w. P w × Unread w)
                (λ _. P)
        asked b =
            weaken (Keeps-require b protocol_value_error) (λ w h. h) (λ _ w h. h) (λ _ w h. h.0)
