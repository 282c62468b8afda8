-- ===== src/Runner/Rollback.antt =====
-- Rollback of internal/runner/status.go.
pub mod Returned
use node_box.Prelude.{String, Bool, true, Option, none, some, Result, ok, err}
use node_box.Control.{Trigger, manual}
use node_box.Output.State.{State, load_state}
use node_box.Source.Store.{previous_pointer, pointer}
use node_box.Runner.Update.{World, Env, UpdateError, map_err, execute}

pub data RollbackError : Type 0 where
  no_previous no_state : RollbackError
  not_updated : UpdateError → RollbackError

abbrev pub back_to : String → Trigger
back_to ref = record { kind = manual; ref = ref; force = true }

module _ (env : Env) where
  unfoldable pub executed :
      World × Result UpdateError (Unit {0}) → World × Result RollbackError (Unit {0})
  unfolding map_err
  executed (w, r) = (w, map_err not_updated r)

  unfoldable pub roll_to : World → String → Option State → World × Result RollbackError (Unit {0})
  unfolding executed
  roll_to w ref none = (w, err no_state)
  roll_to w ref (some st) = executed (execute env (back_to ref) w)

  unfoldable pub roll_back : World → Option String → World × Result RollbackError (Unit {0})
  unfolding roll_to
  roll_back w none = (w, err no_previous)
  roll_back w (some ref) = roll_to w ref (load_state w.state_file)

  unfoldable pub rollback : World → World × Result RollbackError (Unit {0})
  unfolding roll_back
  rollback w = roll_back w (pointer w.store previous_pointer)
