-- ===== src/Runner/Queue.antt =====
-- The trigger channel of internal/runner/runner.go, and coalesce.go. The first element of the list
-- is the next that the channel delivers.
pub mod Coalesced
use node_box.Prelude.{
  ℕ, String, Bool, true, false, not, ◌||◌, List, [], ◌∷◌, ◌++◌, ◌==◌, ltb, if◌then◌else◌, length,
}
use node_box.Control.{Kind, Trigger, startup, schedule, poll, webhook, signal, manual}

abbrev pub queue_depth : ℕ
queue_depth = 8

-- Runner.Trigger: the queue, and whether the trigger was taken.
unfoldable pub trigger : List Trigger → Trigger → List Trigger × Bool
trigger queue t = if ltb (length queue) queue_depth then (queue ++ t ∷ [], true) else (queue, false)

-- a timer that happened to fire, rather than a specific request
unfoldable pub is_timer : Kind → Bool
is_timer schedule = true
is_timer poll = true
is_timer startup = true
is_timer _ = false

-- the body of the loop of coalesce
unfoldable pub merge : Trigger → Trigger → Trigger
unfolding is_timer
merge t next = record {
  kind = if is_timer t.kind then next.kind else t.kind;
  ref = if next.ref == "" then t.ref else next.ref;
  force = t.force || next.force;
}

unfoldable pub coalesce : Trigger → List Trigger → Trigger
unfolding merge
coalesce t [] = t
coalesce t (next ∷ queue) = coalesce (merge t next) queue
