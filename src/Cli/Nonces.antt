-- ===== src/Cli/Nonces.antt =====
-- The nonces of a whole run of the poll loop.
use technocore_safe_agent.Base.{
  ℕ, false, ◌||◌, ◌≡◌, refl, List, [], ◌∷◌, if◌then◌else◌, leb, Error, transport_error,
  response_error,
}
use technocore_safe_agent.Base.Dict.{Dict}
use technocore_safe_agent.Crypto.Library.{Primitives}
use technocore_safe_agent.State.{cursor_for}
use technocore_safe_agent.World.{World, Envelope}
use technocore_safe_agent.Exec.Triple.{
  Ends, Keeps, Keeps-bind, Keeps-gets, Keeps-require, Keeps-pure, Keeps-raise, Keeps-try_except,
}
use technocore_safe_agent.Audit.Frame.{Keeps-if}
use technocore_safe_agent.Agent.Actions.{Keeps-read_room}
use technocore_safe_agent.Agent.Frame.{Holds, Stable-Holds, Keeps-process_snapshot}
use technocore_safe_agent.Agent.Nonces.{NoncesUsed, Keeps-send_text}
use technocore_safe_agent.Agent.{Responder, process_snapshot}
use technocore_safe_agent.Protocol.{RoomSnapshot}
use technocore_safe_agent.Cli.{PollOptions, Pause, poll_room, retry, round, poll, is_waiting}

module _ (F : Dict ℕ → List Envelope → Type 0) (p : Primitives) (r : Responder)
    (options : PollOptions)
    (processed : (snapshot : RoomSnapshot) → Keeps (Holds F) (process_snapshot p r snapshot)) where
  Keeps-poll_room : Keeps (Holds F) (poll_room p r options)
  unfolding poll_room
  Keeps-poll_room = Keeps-bind (Keeps-gets (λ w. w.state)) λ s.
      Keeps-bind
        (Keeps-read_room (Stable-Holds F) r.client r.room (cursor_for s r.room)
          (if options.once then 0 else options.wait) options.limit)
        λ snapshot.
          Keeps-bind (Keeps-require (leb (cursor_for s r.room) snapshot.last_seq) response_error)
            λ _. processed snapshot

  Keeps-retry :
      (pause : Pause) (backoff : ℕ) (e : Error)
      → Keeps (Holds F) (retry p r options pause backoff e)
  unfolding retry
  Keeps-retry pause backoff (transport_error status) =
      Keeps-if options.once (Keeps-raise (transport_error status)) (Keeps-pure _)
  Keeps-retry pause backoff e = Keeps-raise e

  Keeps-round : (pause : Pause) (backoff : ℕ) → Keeps (Holds F) (round p r options pause backoff)
  unfolding round
  Keeps-round pause backoff =
      Keeps-try_except (Keeps-bind Keeps-poll_room λ notices. Keeps-pure _)
        (Keeps-retry pause backoff)

  pub Keeps-poll :
      (backoff : ℕ) (pauses : List Pause) → Keeps (Holds F) (poll p r options backoff pauses)
  unfolding poll
  Keeps-poll backoff [] = Keeps-pure []
  Keeps-poll backoff (pause ∷ pauses) = Keeps-bind (Keeps-round pause backoff) λ s.
      Keeps-bind (Keeps-if (options.once || is_waiting s.0) (Keeps-pure []) (Keeps-poll s.1 pauses))
        λ rest. Keeps-pure (s.0 ∷ rest)

module _ (p : Primitives) (r : Responder) (options : PollOptions) (pauses : List Pause)
    (w : World) where
  -- If the nonces of the writes sent so far fall strictly from the room's stored nonce, the latest
  -- first, then they do so after any number of rounds of the poll loop, whether it goes on,
  -- returns or raises: in a whole run no write uses a nonce twice.
  pub poll-NoncesUsed :
      NoncesUsed r.room w.state.nonces w.wire
      → Ends
          (λ _ w'. NoncesUsed r.room w'.state.nonces w'.wire)
          (λ _ w'. NoncesUsed r.room w'.state.nonces w'.wire)
          (poll p r options 1_000 pauses w)
  poll-NoncesUsed =
      (Keeps-poll (NoncesUsed r.room) p r options
          (Keeps-process_snapshot (NoncesUsed r.room) p r (λ _. Keeps-send_text p r)) 1_000
          pauses).at
        w

  -- Without `send`, no number of rounds sends anything or reserves a nonce.
  pub poll-dry :
      r.send ≡ false
      → Ends
          (λ _ w'. (w'.state.nonces ≡ w.state.nonces) × (w'.wire ≡ w.wire))
          (λ _ w'. (w'.state.nonces ≡ w.state.nonces) × (w'.wire ≡ w.wire))
          (poll p r options 1_000 pauses w)
  poll-dry dry =
      (Keeps-poll (λ nonces wire. (nonces ≡ w.state.nonces) × (wire ≡ w.wire)) p r options
          (Keeps-process_snapshot (λ nonces wire. (nonces ≡ w.state.nonces) × (wire ≡ w.wire)) p r
            (λ sends. cc))
          1_000 pauses).at
        w (refl, refl)
