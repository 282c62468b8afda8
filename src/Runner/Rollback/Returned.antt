-- ===== src/Runner/Rollback/Returned.antt =====
-- Rollback of internal/runner/status.go: what it leaves.
use node_box.Prelude.{
  String, ◌≡◌, ◌∙◌, refl, ap, true, false, Option, none, some, Result, ok, err, arith, eq_false→ne,
}
use node_box.Control.{manual}
use node_box.Output.State.{State, load_state}
use node_box.Source.Store.{current_pointer, previous_pointer, pointer}
use node_box.Source.Store.Pointers.{has_snapshot-valid_ref, empty_false}
use node_box.Runner.Update.{World, Env, UpdateError, map_err, execute}
use node_box.Runner.Update.Planned.{pointer-known}
use node_box.Runner.Update.Finished.{IsFinished, execute-IsFinished}
use node_box.Runner.Rollback.{
  RollbackError, no_previous, no_state, not_updated, back_to, executed, roll_to, roll_back,
  rollback,
}

module _ (env : Env) where
  -- The forced update, asked for by hand, to the ref.
  abbrev pub updated_to : String → World → World × Result UpdateError (Unit {0})
  updated_to ref w = execute env (record { kind = manual; ref = ref; force = true }) w

  -- What Rollback leaves and returns.
  abbrev pub IsReturned : World → World × Result RollbackError (Unit {0}) → Type 0
  IsReturned before (after, ok _) =
      (ref : String) × (pointer before.store previous_pointer ≡ some ref)
      × (updated_to ref before ≡ (after, ok tt))
      × (pointer after.store current_pointer ≡ some ref)
  IsReturned before (after, err no_previous) =
      (pointer before.store previous_pointer ≡ none) × (after ≡ before)
  IsReturned before (after, err no_state) = (load_state before.state_file ≡ none) × (after ≡ before)
  IsReturned before (after, err (not_updated e)) =
      (ref : String) × (pointer before.store previous_pointer ≡ some ref)
      × (updated_to ref before ≡ (after, err e))

module _ (env : Env) (allowed : env.store_host.refuses_pointer current_pointer ≡ false) where
  executed-IsReturned :
      (w : World) (ref : String) (r : World × Result UpdateError (Unit {0}))
      → pointer w.store previous_pointer ≡ some ref
      → updated_to env ref w ≡ r
      → IsFinished env (back_to ref) w r
      → IsReturned env w (executed env r)
  unfolding executed map_err
  executed-IsReturned w ref (after, err e) p u f = (ref, p, u)
  executed-IsReturned w ref (after, ok _) p u (old, l, acquired, plan, x) =
      let ne = eq_false→ne ref "" (
        empty_false ref
          (has_snapshot-valid_ref w.store ref (pointer-known w.store previous_pointer ref p))) in
      let same = x.usable.requested ne in
      let moved : pointer after.store current_pointer ≡ some plan.snapshot.ref =
        x.moved.0 ∙ ground (arith, x.usable.stored, allowed) in
      (ref, p, u, moved ∙ ap (λ (s : String). some s) same)

  roll_to-IsReturned :
      (w : World) (ref : String) (o : Option State)
      → pointer w.store previous_pointer ≡ some ref
      → load_state w.state_file ≡ o
      → IsReturned env w (roll_to env w ref o)
  unfolding roll_to
  roll_to-IsReturned w ref none p l = (l, refl)
  roll_to-IsReturned w ref (some st) p l =
      executed-IsReturned w ref (execute env (back_to ref) w) p refl
        (execute-IsFinished env (back_to ref) w)

  roll_back-IsReturned :
      (w : World) (o : Option String)
      → pointer w.store previous_pointer ≡ o
      → IsReturned env w (roll_back env w o)
  unfolding roll_back
  roll_back-IsReturned w none p = (p, refl)
  roll_back-IsReturned w (some ref) p = roll_to-IsReturned w ref (load_state w.state_file) p refl

-- Where the host lets the current pointer be written: a rollback that succeeds makes what `previous`
-- named the current snapshot; one without a previous snapshot or a readable state changes nothing;
-- and otherwise the forced manual update to that snapshot failed, with the error returned, and left
-- what is left.
pub rollback-IsReturned :
    (env : Env) (w : World)
    → env.store_host.refuses_pointer current_pointer ≡ false
    → IsReturned env w (rollback env w)
unfolding rollback
rollback-IsReturned env w allowed =
    roll_back-IsReturned env allowed w (pointer w.store previous_pointer) refl
