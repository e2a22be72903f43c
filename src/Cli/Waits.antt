-- ===== src/Cli/Waits.antt =====
-- How long the poll loop waits: the bounds of its delays, its sleeps and its backoff.
use technocore_safe_agent.Base.{
  ℕ, ◌+◌, ◌-◌, ◌≤◌, ◌<◌, ◌≡◌, ◌||◌, ◌++◌, ap, refl, Bool, false, max, Option, none, some, List, [],
  ◌∷◌, min, leb, arith, Error, transport_error, Bool-cases, inl, inr,
}
use technocore_safe_agent.Crypto.Library.{Primitives}
use technocore_safe_agent.World.{World}
use technocore_safe_agent.Exec.Triple.{Ends, weaken}
use technocore_safe_agent.Exec.Returns.{
  Returns, Returns-any, Returns-pure, Returns-raise, Returns-bind, Returns-if, Returns-try_except,
}
use technocore_safe_agent.Agent.{Responder}
use technocore_safe_agent.Cli.{
  is_waiting, PollOptions, Pause, Step, polled, retried, sleeps, delay_of, poll_room, retry, round,
  poll,
}

-- A backoff of at least a second and at most thirty.
abbrev IsBackoff : ℕ → Type 0
IsBackoff backoff = (1_000 ≤ backoff) × (backoff ≤ 30_000)

-- One sleep for each reading before the deadline: not empty, at most thirty seconds, and not beyond
-- the deadline.
abbrev pub Early : ℕ → List ℕ → List ℕ → Type 0
Early deadline [] [] = Unit
Early deadline (now ∷ readings) (sleep ∷ slept) =
    (now < deadline)
    × (0 < sleep)
    × (sleep ≤ 30_000)
    × (now + sleep ≤ deadline)
    × Early deadline readings slept
Early deadline _ _ = ⊥

-- The wait is over at a reading that is not before the deadline, and all readings before it were
-- early; or they all were.
abbrev pub Waited : ℕ → List ℕ → List ℕ → Option ℕ → Type 0
Waited deadline readings slept none = Early deadline readings slept
Waited deadline readings slept (some now) =
    (before after : List ℕ) × (readings ≡ before ++ now ∷ after)
    × Early deadline before slept
    × (deadline ≤ now)

Waited-later :
    (deadline now sleep : ℕ) (readings slept : List ℕ) (resumed : Option ℕ)
    → now < deadline
    → 0 < sleep
    → sleep ≤ 30_000
    → now + sleep ≤ deadline
    → Waited deadline readings slept resumed
    → Waited deadline (now ∷ readings) (sleep ∷ slept) resumed
Waited-later deadline now sleep readings slept none early some_sleep short within h =
    (early, some_sleep, short, within, h)
Waited-later deadline now sleep readings slept (some t) early some_sleep short within h =
    (now ∷ h.0, h.1, ap (λ ns. now ∷ ns) h.2, (early, some_sleep, short, within, h.3), h.4)

sleeps-Waited :
    (deadline : ℕ) (readings : List ℕ)
    → Waited deadline readings (sleeps deadline readings).0 (sleeps deadline readings).1
unfolding sleeps
sleeps-Waited deadline [] = tt
sleeps-Waited deadline (now ∷ readings) = elim (Bool-cases (leb deadline now)) [
  | inl over ↦ simp (over) ([], readings, refl, tt, ground arith)
  | inr early ↦ simp (early) (
      Waited-later deadline now (min (deadline - now) 30_000) readings _ _ (ground arith)
        (ground arith) (ground arith) (ground arith) (sleeps-Waited deadline readings))
]

-- The delay is at least what the server asks for, and at most that, half a second or the backoff.
abbrev pub Honours : Option ℕ → ℕ → Type 0
Honours none delay = delay ≤ 30_000
Honours (some after) delay = (after ≤ delay) × (delay ≤ max after 500)

abbrev pub IsBounded : Pause → Step → Type 0
IsBounded pause (polled notices) = Unit
IsBounded pause (retried delay status slept resumed) =
    (500 ≤ delay)
    × Honours pause.retry_after delay
    × Waited (pause.started + delay) pause.readings slept resumed

-- No round follows one that still waits.
abbrev pub GoesOn : Step → List Step → Type 0
GoesOn (retried delay status slept none) (step ∷ steps) = ⊥
GoesOn _ _ = Unit

abbrev pub AllBounded : List Pause → List Step → Type 0
AllBounded pauses [] = Unit
AllBounded [] (step ∷ steps) = ⊥
AllBounded (pause ∷ pauses) (step ∷ steps) =
    IsBounded pause step × GoesOn step steps × AllBounded pauses steps

GoesOn-empty : (step : Step) → GoesOn step []
GoesOn-empty (polled notices) = tt
GoesOn-empty (retried delay status slept none) = tt
GoesOn-empty (retried delay status slept (some now)) = tt

GoesOn-over :
    (once : Bool) (step : Step) (steps : List Step)
    → (once || is_waiting step) ≡ false
    → GoesOn step steps
GoesOn-over once step [] h = GoesOn-empty step
GoesOn-over once (polled notices) (next ∷ steps) h = tt
GoesOn-over once (retried delay status slept none) (next ∷ steps) h = ground arith
GoesOn-over once (retried delay status slept (some now)) (next ∷ steps) h = tt

delay_of-bound :
    (retry_after : Option ℕ) (backoff : ℕ)
    → IsBackoff backoff
    → (500 ≤ delay_of retry_after backoff) × Honours retry_after (delay_of retry_after backoff)
unfolding delay_of
delay_of-bound none backoff h = (omega arith, omega (arith, h))
delay_of-bound (some after) backoff h = (omega arith, (omega arith, omega arith))

module _ (p : Primitives) (r : Responder) (options : PollOptions) where
  retry-bound :
      (pause : Pause) (backoff : ℕ) (e : Error)
      → IsBackoff backoff
      → Returns (retry p r options pause backoff e) (λ s. IsBounded pause s.0 × IsBackoff s.1)
  unfolding retry
  retry-bound pause backoff (transport_error status) h =
      Returns-if options.once (λ _. Returns-raise (transport_error status))
        (λ _. Returns-pure _ (
          (
            (delay_of-bound pause.retry_after backoff h).0,
            (delay_of-bound pause.retry_after backoff h).1,
            sleeps-Waited (pause.started + delay_of pause.retry_after backoff) pause.readings,
          ),
          (omega (arith, h), omega (arith, h)),
        ))
  retry-bound pause backoff e h = Returns-raise e

  round-bound :
      (pause : Pause) (backoff : ℕ)
      → IsBackoff backoff
      → Returns (round p r options pause backoff) (λ s. IsBounded pause s.0 × IsBackoff s.1)
  unfolding round
  round-bound pause backoff h =
      Returns-try_except
        (Returns-bind (λ _. Unit) (Returns-any (poll_room p r options))
          λ notices _. Returns-pure (polled notices, 1_000) (tt, (omega arith, omega arith)))
        (λ e. retry-bound pause backoff e h)

  poll-bound :
      (backoff : ℕ) (pauses : List Pause)
      → IsBackoff backoff
      → Returns (poll p r options backoff pauses) (AllBounded pauses)
  unfolding poll
  poll-bound backoff [] h = Returns-pure [] tt
  poll-bound backoff (pause ∷ pauses) h =
      Returns-bind (λ s. IsBounded pause s.0 × IsBackoff s.1) (round-bound pause backoff h)
        λ s bound.
          Returns-bind (λ rest. GoesOn s.0 rest × AllBounded pauses rest)
            (Returns-if (options.once || is_waiting s.0)
              (λ _. Returns-pure [] (GoesOn-empty s.0, tt))
              (λ over.
                weaken (poll-bound s.1 pauses bound.1) (λ _ x. x)
                  (λ rest _ all. (GoesOn-over options.once s.0 rest over, all)) (λ _ _ x. x)))
            λ rest all. Returns-pure (s.0 ∷ rest) (bound.0, all.0, all.1)

  -- However often the loop retries, after a failed read the next round starts only once the clock
  -- shows at least the delay after the failure. The delay is half a second at least, and not less than
  -- the server's `retry_after`. At each reading before that the loop sleeps, for thirty seconds at most
  -- and not beyond the end of the delay.
  pub poll-AllBounded :
      (pauses : List Pause) (w : World)
      → Ends
          (λ steps _. AllBounded pauses steps)
          (λ _ _. Unit {0})
          (poll p r options 1_000 pauses w)
  poll-AllBounded pauses w = (poll-bound 1_000 pauses (omega arith, omega arith)).at w tt
