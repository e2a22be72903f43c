-- ===== src/Exec.antt =====
-- Methods that change the world and may raise. What was done before a raise stays done, so the
-- world comes back beside the error too.
pub mod Triple
pub mod Frame
pub mod Returns
use technocore_safe_agent.Base.{Bool, true, false, Error, Result, ok, err, os_error, crashed}
use technocore_safe_agent.State.{AgentState}
use technocore_safe_agent.World.{World, Fault, works, fails, crashes, next_or, others}

abbrev pub Exec : Type 0 → Type 0
Exec A = World → Result A × World

abbrev pub Done : Type 0
Done = Exec (Unit {0})

module _ {A : Type 0} where
  unfoldable pub pure : A → Exec A
  pure a w = (ok a, w)

  unfoldable pub raise : Error → Exec A
  raise e w = (err e, w)

  unfoldable pub lift : Result A → Exec A
  lift r w = (r, w)

  unfoldable pub gets : (World → A) → Exec A
  gets f w = (ok (f w), w)

  abbrev pub catch : (Error → Exec A) → Result A × World → Result A × World
  catch handler (ok a, w) = (ok a, w)
  catch handler (err e, w) = handler e w

  -- try: m; except ... as error: handler(error). A handler raises again what it does not name.
  unfoldable pub try_except : Exec A → (Error → Exec A) → Exec A
  try_except m handler w = catch handler (m w)

unfoldable pub modify : (World → World) → Done
modify f w = (ok tt, f w)

abbrev pub continue : {A B : Type 0} → (A → Exec B) → Result A × World → Result B × World
continue f (ok a, w) = f a w
continue f (err e, w) = (err e, w)

infixl 5 ◌>>=◌ ◌>>◌
-- Opening this opens the actions above too.
unfoldable pub ◌>>=◌ : {A B : Type 0} → Exec A → (A → Exec B) → Exec B
unfolding pure raise lift gets try_except modify
◌>>=◌ m f w = continue f (m w)

abbrev pub ◌>>◌ : {B : Type 0} → Done → Exec B → Exec B
m >> k = m >>= λ _. k

abbrev pub when : Bool → Done → Done
when true m = m
when false m = pure tt

abbrev pub require : Bool → Error → Done
require true e = pure tt
require false e = raise e

-- except OSError as error: raise e from error
abbrev pub os_error_as : Error → Error → Error
os_error_as e os_error = e
os_error_as e other = other

abbrev pub outcome_of : Fault → Result (Unit {0})
outcome_of works = ok tt
outcome_of fails = err os_error
outcome_of crashes = err crashed

-- One call of the operating system.
unfoldable pub os_call : Done
os_call w = (outcome_of (next_or works w.faults), record w { faults = others w.faults })

unfoldable pub put_state : AgentState → Done
put_state s = modify (λ w. record w { state = s })

-- The write of a mode-0600 file that state.py and delivery.py share: a temporary file beside the
-- target, replaced by it in one step. `replace` is that step. An OSError is raised as `e`; the
-- temporary file is removed first, and an OSError of that removal is raised as it is.
unfoldable pub stage : (World → World) → Done
unfolding os_call ◌>>=◌
stage replace = do
  -- fchmod, write and flush, fsync, replace
  os_call
  os_call
  os_call
  os_call
  modify replace

abbrev pub remove_temporary : Error → Error → Done
remove_temporary e os_error = do os_call; raise e
remove_temporary e other = raise other

unfoldable pub atomic_write : Error → (World → World) → Done
unfolding os_call stage ◌>>=◌
atomic_write e replace = do
  -- mkstemp
  try_except os_call (λ error. raise (os_error_as e error))
  try_except (stage replace) (remove_temporary e)
  -- chmod of the new file
  try_except os_call (λ error. raise (os_error_as e error))
