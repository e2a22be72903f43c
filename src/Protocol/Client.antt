-- ===== src/Protocol/Client.antt =====
-- `TechnocoreClient` of protocol.py: the requests, and the checks of what comes back.
use technocore_safe_agent.Base.{
  ℕ, String, ◌&&◌, none, leb, ltb, ◌∷◌, Result, ok, err, protocol_value_error, response_error,
  transport_error, http_exception,
}
use technocore_safe_agent.Json.{Value, Fields, obj}
use technocore_safe_agent.Crypto.{validate_room}
use technocore_safe_agent.Crypto.Library.{Primitives}
use technocore_safe_agent.World.{
  Reply, body, undecodable, failed, broken, Envelope, next_or, others,
}
use technocore_safe_agent.Exec.{Exec, Done, lift, modify, require, ◌>>=◌, ◌>>◌}
use technocore_safe_agent.Protocol.{RoomMessage, RoomSnapshot, parse_snapshot}
use technocore_safe_agent.Protocol.Request.{TechnocoreClient, envelope_of, acknowledged}

abbrev pub decoded : Reply → Result Fields
decoded (body (obj payload)) = ok payload
decoded (body _) = err response_error
decoded undecodable = err response_error
decoded (failed status) = err (transport_error status)
decoded broken = err http_exception

-- The handlers name HTTPError, URLError, TimeoutError and OSError; an HTTPException that `urlopen`
-- raises is none of these and passes.
unfoldable pub request_json : Exec Fields
request_json w =
    (decoded (next_or (failed none) w.replies), record w { replies = others w.replies })

unfoldable pub read_room : TechnocoreClient → String → ℕ → ℕ → ℕ → Exec RoomSnapshot
unfolding request_json ◌>>=◌
read_room client room since wait limit = do
  valid_room ← lift (validate_room room)
  require (leb wait 10_000) protocol_value_error
  require (ltb wait client.timeout) protocol_value_error
  require (leb 1 limit && leb limit 200) protocol_value_error
  payload ← request_json
  lift (parse_snapshot payload valid_room)

-- The signed write, as it is handed to `urlopen`.
unfoldable pub post : Envelope → Done
unfolding ◌>>=◌
post envelope = modify (λ w. record w { wire = envelope ∷ w.wire })

module _ (p : Primitives) (client : TechnocoreClient) where
  unfoldable pub send_signed_message : String → String → String → Value → String → Exec RoomMessage
  unfolding envelope_of acknowledged post request_json ◌>>=◌
  send_signed_message room did signature nonce text = do
    e ← lift (envelope_of p client room did signature nonce text)
    post e
    payload ← request_json
    lift (acknowledged e payload)
