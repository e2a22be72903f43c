-- ===== src/Agent/Actions.antt =====
-- Rules for the agent's own actions on the scripts, the state and the wire.
use technocore_safe_agent.Protocol.{parse_snapshot}
use technocore_safe_agent.Protocol.Request.{TechnocoreClient}
use technocore_safe_agent.Crypto.{validate_room}
use technocore_safe_agent.Base.{
  String, leb, ltb, ◌&&◌, protocol_value_error, ℕ, Error, Result, ok, err, ◌∷◌,
}
use technocore_safe_agent.Json.{Fields}
use technocore_safe_agent.World.{World, Envelope, failed, next_or}
use technocore_safe_agent.Base.{none}
use technocore_safe_agent.Exec.{modify}
use technocore_safe_agent.Exec.Triple.{
  Pred, Ends, Triple, Keeps, Keeps-bind, Keeps-lift, Keeps-require,
}
use technocore_safe_agent.Exec.Frame.{Stable}
use technocore_safe_agent.Protocol.Client.{request_json, read_room, decoded, post}
use technocore_safe_agent.Agent.{take_clock_ns, take_issue}

reply_Ends :
    (P : Pred) (x : Result Fields) (w : World) → P w → Ends {A = Fields} (λ _. P) (λ _. P) (x, w)
reply_Ends P (ok a) w h = h
reply_Ends P (err e) w h = h

module _ {P : Pred} (s : Stable P) where
  pub Keeps-request : Keeps P request_json
  unfolding request_json
  Keeps-request = record {
    at = λ w h. reply_Ends P (decoded (next_or (failed none) w.replies)) _ (s.replies w _ h);
  }

  pub Keeps-read_room :
      (client : TechnocoreClient) (room : String) (since wait limit : ℕ)
      → Keeps P (read_room client room since wait limit)
  unfolding read_room
  Keeps-read_room client room since wait limit =
      Keeps-bind (Keeps-lift (validate_room room)) λ valid_room.
        Keeps-bind (Keeps-require (leb wait 10_000) protocol_value_error) λ _.
          Keeps-bind (Keeps-require (ltb wait client.timeout) protocol_value_error) λ _.
            Keeps-bind (Keeps-require (leb 1 limit && leb limit 200) protocol_value_error) λ _.
              Keeps-bind Keeps-request λ payload. Keeps-lift (parse_snapshot payload valid_room)

  pub Keeps-take_clock_ns : Keeps P take_clock_ns
  unfolding take_clock_ns
  Keeps-take_clock_ns = record { at = λ w h. s.clock_ns w _ h }

  pub Keeps-take_issue : Keeps P take_issue
  unfolding take_issue
  Keeps-take_issue = record { at = λ w h. s.issues w _ h }

module _ {P Q : Pred} {E : Error → Pred} where
  pub Triple-post :
      (e : Envelope)
      → ((w : World) → P w → Q (record w { wire = e ∷ w.wire }))
      → Triple P (post e) (λ _. Q) E
  unfolding post modify
  Triple-post e h = record { at = h }
