-- ===== src/Runner/Poll/Polled.antt =====
-- pollOnce of internal/runner/loops.go: when it queues an update, and that it does not after one.
use node_box.Prelude.{
  String, ◌≡◌, ◌≢◌, ◌⊎◌, inl, inr, refl, ap, Bool, true, false, none, some, List, if◌then◌else◌,
  Result, ok, err, eq_iff, eq_false→ne, Option,
}
use node_box.Control.{Trigger}
use node_box.Runner.Poll.{is_current, poll_trigger, poll_once}
use node_box.Runner.Queue.{trigger}
use node_box.Source.Store.{Store, pointer, current_pointer}

is_current-true : (ref : String) (o : Option String) → is_current ref o ≡ true → o ≡ some ref
unfolding is_current
is_current-true ref none h = cc
is_current-true ref (some current) h = ap some ((eq_iff current ref).0 h)

is_current-false : (ref : String) (o : Option String) → is_current ref o ≡ false → o ≢ some ref
unfolding is_current
is_current-false ref none h = λ e. cc
is_current-false ref (some current) h = λ e. eq_false→ne current ref h cc

module _ {E : Type 0} where
  -- Left alone, where the source fails or names the current snapshot; or a trigger for another ref.
  abbrev pub IsPolled : Result E String → Store → List Trigger → List Trigger → Type 0
  IsPolled (err e) store queue after = after ≡ queue
  IsPolled (ok ref) store queue after =
      ((pointer store current_pointer ≡ some ref) × (after ≡ queue))
      ⊎ ((pointer store current_pointer ≢ some ref)
          × (after ≡ (trigger queue (poll_trigger ref)).0))

  pub poll_once-IsPolled :
      (r : Result E String) (store : Store) (queue : List Trigger)
      → IsPolled r store queue (poll_once r store queue)
  unfolding poll_once
  poll_once-IsPolled (err e) store queue = refl
  poll_once-IsPolled (ok ref) store queue = go (is_current ref (pointer store current_pointer)) refl
    where
      go :
          (b : Bool)
          → is_current ref (pointer store current_pointer) ≡ b
          → IsPolled
              (ok ref)
              store
              queue
              (if b then queue else (trigger queue (poll_trigger ref)).0)
      go true h = inl (is_current-true ref _ h, refl)
      go false h = inr (is_current-false ref _ h, refl)
