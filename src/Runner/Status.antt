-- ===== src/Runner/Status.antt =====
-- ReadStatus of internal/runner/status.go. The description of the source and whether the lock is
-- held are arguments.
pub mod Reported
use node_box.Prelude.{String, Bool, true, false, not, ◌&&◌, Option, none, some, []}
use node_box.Control.{Status}
use node_box.Output.State.{State, load_state}
use node_box.Source.Store.{current_pointer, previous_pointer, pointer}
use node_box.Runner.Update.{World}

or_empty : Option String → String
or_empty none = ""
or_empty (some ref) = ref

-- what is known without the state file
unfoldable pub bare_status : String → Bool → World → Status
unfolding or_empty
bare_status source held w = record {
  source = source;
  current = or_empty (pointer w.store current_pointer);
  previous = or_empty (pointer w.store previous_pointer);
  applied_ref = "";
  updated_at = none;
  last_error = "";
  last_error_at = none;
  daemon_active = held;
  updating = false;
  interrupted = false;
  last_trigger = "";
  started_at = none;
  outputs = [];
}

unfoldable pub with_state : Bool → Status → Option State → Status
with_state held s none = s
with_state held s (some st) = record s {
  applied_ref = st.ref;
  updated_at = st.updated_at;
  last_error = st.last_error;
  last_error_at = st.last_error_at;
  last_trigger = st.last_trigger;
  started_at = st.started_at;
  outputs = st.outputs;
  updating = st.updating && held;
  interrupted = st.updating && not held;
}

unfoldable pub read_status : String → Bool → World → Status
unfolding bare_status with_state
read_status source held w = with_state held (bare_status source held w) (load_state w.state_file)
