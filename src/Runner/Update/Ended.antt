-- ===== src/Runner/Update/Ended.antt =====
-- Execute of internal/runner/runner.go: the state file once it has returned.
use node_box.Prelude.{
  String, ◌≡◌, refl, inl, inr, sym, subst, Bool, true, false, not, Option, none, some, Result, ok,
  err, Option-cases, if◌then◌else◌,
}
use node_box.Control.{Trigger}
use node_box.Output.State.{State, load_state, record_start, record_success, record_failure, holds}
use node_box.Output.Write.{Outcome, write}
use node_box.Output.Target.{base_dir}
use node_box.Runner.Update.{
  World, Env, Plan, UpdateError, save, record_written, write_ready, write_plan, build_plan, run,
  finish, start, execute, read_only, kind_text,
}

module _ (env : Env) where
  abbrev pub outcome_text : Result UpdateError (Unit {0}) → String
  outcome_text (ok _) = ""
  outcome_text (err e) = env.describe e

  -- The state file holds a run that has ended as the result says.
  abbrev pub HasEnded : World × Result UpdateError (Unit {0}) → Type 0
  HasEnded (w, r) =
      (s : State) × (w.state_file ≡ holds (some s))
      × (s.updating ≡ false)
      × (s.last_error ≡ outcome_text r)

  -- The same, where a failure is still to be recorded.
  abbrev EndsWell : World × Result UpdateError (Unit {0}) → Type 0
  EndsWell (w, ok u) = HasEnded (w, ok u)
  EndsWell (w, err e) = Unit

  module _ (saves : (s : State) → env.refuses_state s ≡ false) where
    state_file-save : (s : State) (w : World) → (save env s w).state_file ≡ holds (some s)
    unfolding save
    state_file-save s w = go (env.refuses_state s) (saves s)
      where
        go :
            (b : Bool)
            → b ≡ false
            → (if b then w else record w { state_file = holds (some s) }).state_file
              ≡ holds (some s)
        go false e = refl
        go true e = cc

    record_written-EndsWell :
        (st : State) (plan : Plan) (w : World) (o : Outcome)
        → EndsWell (record_written env st plan w o)
    unfolding record_written record_success
    record_written-EndsWell st plan w o = elim (Option-cases o.failed) [
      | inr (name, f) ↦ rw f tt
      | inl n ↦ rw n (_, state_file-save _ _, refl, refl)
    ]

    write_plan-EndsWell :
        (force : Bool) (st : State) (w : World) (r : Result UpdateError Plan)
        → EndsWell (write_plan env force st w r)
    unfolding write_plan write_ready
    write_plan-EndsWell force st w (err e) = tt
    write_plan-EndsWell force st w (ok plan) =
        go (env.ensure_dirs (base_dir env.root plan.snapshot.config) plan.outputs)
      where
        go : (o : Option String) → EndsWell (write_ready env force st w plan o)
        go none =
            record_written-EndsWell st plan w (write env.host env.hash force w.disk plan.files)
        go (some message) = tt

    finish-HasEnded :
        (st : State) (r : World × Result UpdateError (Unit {0}))
        → EndsWell r
        → HasEnded (finish env st r)
    unfolding finish record_failure
    finish-HasEnded st (w, ok u) h = h
    finish-HasEnded st (w, err e) h = (_, state_file-save _ w, refl, refl)

    -- An update that starts, and may save its state, leaves it recorded how the update ended.
    pub execute-HasEnded :
        (t : Trigger) (w : World) (old : State)
        → env.writable ≡ true
        → load_state w.state_file ≡ some old
        → HasEnded (execute env t w)
    unfolding execute start run
    execute-HasEnded t w old writable loaded =
        let st = record_start (kind_text t.kind) env.now old in
        let h = finish-HasEnded st _ (
          write_plan-EndsWell t.force st
            (record (save env st w) { store = (build_plan env (save env st w).store t.ref).0 })
            (build_plan env (save env st w).store t.ref).1) in
        started env.writable (load_state w.state_file) writable loaded h
      where
        started :
            (b : Bool) (o : Option State)
            → b ≡ true
            → o ≡ some old
            → HasEnded (start env t w (some old))
            → HasEnded (if not b then (w, err read_only) else start env t w o)
        started true o e q h = subst (λ x. HasEnded (start env t w x)) (sym q) h
        started false o e q h = cc
