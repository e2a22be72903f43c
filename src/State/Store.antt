-- ===== src/State/Store.antt =====
-- `load` and `save` of state.py: the state file.
use technocore_safe_agent.Base.{Option, none, some, state_error}
use technocore_safe_agent.State.{AgentState, fresh}
use technocore_safe_agent.State.Payload.{to_payload, from_payload}
use technocore_safe_agent.World.{World, File, written, json_of}
use technocore_safe_agent.Exec.{
  Exec, Done, pure, raise, lift, gets, try_except, os_error_as, os_call, atomic_write, ◌>>=◌, ◌>>◌,
}

abbrev pub set_state_file : AgentState → World → World
set_state_file s w = record w { state_file = some (written (to_payload s)) }

-- The mkdir of the parent stands before the try block.
unfoldable pub save : Done
unfolding atomic_write
save = do os_call; s ← gets (λ w. w.state); atomic_write state_error (set_state_file s)

unfoldable pub load_file : Option File → Exec AgentState
unfolding os_call ◌>>=◌
load_file none = pure fresh
load_file (some file) = do
  try_except os_call (λ error. raise (os_error_as state_error error))
  payload ← lift (json_of state_error file)
  lift (from_payload payload)

unfoldable pub load : Exec AgentState
unfolding load_file
load = do file ← gets (λ w. w.state_file); load_file file
