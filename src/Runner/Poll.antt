-- ===== src/Runner/Poll.antt =====
-- pollOnce of internal/runner/loops.go. The source's answer is a parameter; what is logged is left out.
pub mod Polled
use node_box.Prelude.{
  String, Bool, true, false, Option, none, some, List, ◌==◌, if◌then◌else◌, Result, ok, err,
}
use node_box.Control.{Trigger, poll}
use node_box.Runner.Queue.{trigger}
use node_box.Source.Store.{Store, pointer, current_pointer}

unfoldable pub is_current : String → Option String → Bool
is_current ref none = false
is_current ref (some current) = current == ref

abbrev pub poll_trigger : String → Trigger
poll_trigger ref = record { kind = poll; ref = ref; force = false }

-- What the queue becomes.
unfoldable pub poll_once : {E : Type 0} → Result E String → Store → List Trigger → List Trigger
unfolding is_current pointer trigger
poll_once (err e) store queue = queue
poll_once (ok ref) store queue =
    if is_current ref (pointer store current_pointer)
    then queue
    else (trigger queue (poll_trigger ref)).0
