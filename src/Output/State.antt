-- ===== src/Output/State.antt =====
-- internal/output/state.go: the state that is kept between runs. The clock is an argument.
use node_box.Prelude.{ℕ, String, Bool, true, false, Option, none, some, [], Dict}
use node_box.Control.{Time}

pub record State : Type 0 where
  pub ref : String
  pub updated_at : Time
  pub outputs : Dict String
  pub last_error : String
  pub last_error_at : Time
  pub updating : Bool
  pub last_trigger : String
  pub started_at : Time

abbrev pub empty_state : State
empty_state = record {
  ref = "";
  updated_at = none;
  outputs = [];
  last_error = "";
  last_error_at = none;
  updating = false;
  last_trigger = "";
  started_at = none;
}

-- What a read of the state file yields: a missing file, another error, or the decoded content,
-- which is `none` where it is no JSON.
pub data StateFile : Type 0 where
  missing : StateFile
  unreadable : StateFile
  holds : Option State → StateFile

-- `none` is an error. A missing and a corrupt file give the empty state.
unfoldable pub load_state : StateFile → Option State
load_state missing = some empty_state
load_state unreadable = none
load_state (holds none) = some empty_state
load_state (holds (some s)) = some s

unfoldable pub record_start : String → ℕ → State → State
record_start trigger now s = record s {
  updating = true;
  last_trigger = trigger;
  started_at = some now;
}

unfoldable pub record_success : String → Dict String → ℕ → State → State
record_success ref hashes now s = record s {
  updating = false;
  ref = ref;
  outputs = hashes;
  updated_at = some now;
  last_error = "";
  last_error_at = none;
}

-- a nil error changes nothing
unfoldable pub record_failure : Option String → ℕ → State → State
record_failure none now s = s
record_failure (some message) now s = record s {
  updating = false;
  last_error = message;
  last_error_at = some now;
}
