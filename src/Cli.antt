-- ===== src/Cli.antt =====
-- cli.py: the long-poll loop of the `run` command, and the exit codes. Times are in milliseconds.
pub mod Exit
pub mod Waits
pub mod Nonces
pub mod Target
pub mod Run
pub mod Started
pub mod Authorised
pub mod Recover
use technocore_safe_agent.Base.{
  ℕ, ◌+◌, ◌-◌, ◌*◌, ◌||◌, String, Bool, true, false, Option, none, some, List, [], ◌∷◌, leb, max,
  min, if◌then◌else◌, Error, transport_error, response_error,
}
use technocore_safe_agent.Crypto.Library.{Primitives}
use technocore_safe_agent.State.{cursor_for}
use technocore_safe_agent.Protocol.Client.{read_room}
use technocore_safe_agent.Exec.{Exec, pure, raise, gets, try_except, require, ◌>>=◌, ◌>>◌}
use technocore_safe_agent.Agent.{Responder, Notice, process_snapshot}

pub record PollOptions : Type 0 where
  pub once : Bool
  pub wait : ℕ
  pub limit : ℕ

-- What is outside a retried round: the error's `retry_after`, and the readings of `time.monotonic`,
-- the first for the deadline and one for each test of the loop.
pub record Pause : Type 0 where
  pub retry_after : Option ℕ
  pub started : ℕ
  pub readings : List ℕ

-- A round of the loop: the events that it prints, or its `read_retry` event, its sleeps and the
-- reading that ends them; none where the readings end before the wait does.
pub data Step : Type 0 where
  polled : List Notice → Step
  retried : ℕ → Option ℕ → List ℕ → Option ℕ → Step

-- The sleeps until the deadline, and the reading that ends the loop:
-- `while (remaining := deadline - now) > 0: sleep(min(remaining, 30))`.
unfoldable pub sleeps : ℕ → List ℕ → List ℕ × Option ℕ
sleeps deadline [] = ([], none)
sleeps deadline (now ∷ readings) =
    let rest = sleeps deadline readings in
    if leb deadline now then ([], some now) else (min (deadline - now) 30_000 ∷ rest.0, rest.1)

-- The readings ended before the wait did.
abbrev pub is_waiting : Step → Bool
is_waiting (polled notices) = false
is_waiting (retried delay status slept none) = true
is_waiting (retried delay status slept (some now)) = false

-- delay = error.retry_after or the backoff; at least half a second
unfoldable pub delay_of : Option ℕ → ℕ → ℕ
delay_of none backoff = max backoff 500
delay_of (some retry_after) backoff = max retry_after 500

module _ (p : Primitives) (r : Responder) (options : PollOptions) where
  -- The body of the `try`. The read's cache buster only makes its URL differ.
  unfoldable pub poll_room : Exec (List Notice)
  unfolding ◌>>=◌ read_room process_snapshot
  poll_room = do
    s ← gets (λ w. w.state)
    let requested_cursor = cursor_for s r.room
    let wait = if options.once then 0 else options.wait
    snapshot ← read_room r.client r.room requested_cursor wait options.limit
    require (leb requested_cursor snapshot.last_seq) response_error
    process_snapshot p r snapshot

  -- except TransportError as error: the event and the sleeps, and the next backoff
  unfoldable pub retry : Pause → ℕ → Error → Exec (Step × ℕ)
  unfolding sleeps delay_of
  retry pause backoff (transport_error status) =
      let delay = delay_of pause.retry_after backoff in
      let (slept, resumed) = sleeps (pause.started + delay) pause.readings in
      if options.once
      then raise (transport_error status)
      else pure (retried delay status slept resumed, min (backoff * 2) 30_000)
  retry pause backoff error = raise error

  -- One round of the loop, and the backoff after it.
  unfoldable pub round : Pause → ℕ → Exec (Step × ℕ)
  unfolding ◌>>=◌ poll_room retry
  round pause backoff =
      try_except (do notices ← poll_room; pure (polled notices, 1_000)) (retry pause backoff)

  -- As many rounds as there are pauses, as far as their readings go; a loop that has not returned or
  -- raised before goes on.
  unfoldable pub poll : ℕ → List Pause → Exec (List Step)
  unfolding ◌>>=◌ round
  poll backoff [] = pure []
  poll backoff (pause ∷ pauses) = do
    (step, next_backoff) ← round pause backoff
    rest ← if options.once || is_waiting step then pure [] else poll next_backoff pauses
    pure (step ∷ rest)
