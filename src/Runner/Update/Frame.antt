-- ===== src/Runner/Update/Frame.antt =====
-- Execute of internal/runner/runner.go: an update that fails.
use node_box.Prelude.{
  String, ◌≡◌, ◌⊎◌, refl, sym, subst, ◌∙◌, inl, inr, Bool, true, false, not, Option, none, some, [],
  ◌∷◌, ◌++◌, Bool-cases, Option-cases, if◌then◌else◌, Result, ok, err,
}
use node_box.Control.{Trigger}
use node_box.Output.State.{State, load_state, record_start, record_failure, holds}
use node_box.Output.Write.{Outcome, write}
use node_box.Output.Target
use node_box.Source.Store.{Store, Stored}
use node_box.Source.Snapshot.{Snapshot, AcquireError}
use node_box.Source.Snapshot.Acquired.{IsAcquired, acquire-IsAcquired}
use node_box.Runner.Update.{
  World, Env, Plan, UpdateError, read_only, not_written, acquire_or_fall_back, build_plan, save,
  record_written, write_ready, write_plan, run, finish, start, execute, kind_text,
}

-- The second store has the first's pointer files, and its snapshots with at most one more.
abbrev pub IsGrown : Store → Store → Type 0
IsGrown before after =
    (after.current ≡ before.current)
    × (after.previous ≡ before.previous)
    × ((after.snapshots ≡ before.snapshots)
        ⊎ ((s : Stored) × (after.snapshots ≡ before.snapshots ++ s ∷ [])))

same-IsGrown : (before after : Store) → after ≡ before → IsGrown before after
same-IsGrown before after e = subst (IsGrown before) (sym e) (refl, refl, inl refl)

added-IsGrown :
    (before after : Store) (s : Stored)
    → after ≡ record before { snapshots = before.snapshots ++ s ∷ [] }
    → IsGrown before after
added-IsGrown before after s e = subst (IsGrown before) (sym e) (refl, refl, inr (s, refl))

module _ (env : Env) where
  acquired-IsGrown :
      (store : Store) (ref : String) (r : Store × Result AcquireError Snapshot)
      → IsAcquired env.decode env.source env.now store ref r
      → IsGrown store r.0
  acquired-IsGrown store ref (after, err e) a = same-IsGrown store after a
  acquired-IsGrown store ref (after, ok snap) (q, s, r, x) = elim x [
    | inl e ↦ same-IsGrown store after e
    | inr (text, m, z) ↦
        added-IsGrown store after (record { ref = snap.ref; modified = env.now; config = text }) z.1
  ]

  pub build_plan-IsGrown :
      (store : Store) (ref : String) → IsGrown store (build_plan env store ref).0
  unfolding build_plan acquire_or_fall_back
  build_plan-IsGrown store ref =
      acquired-IsGrown store ref _
        (acquire-IsAcquired env.decode env.store_host env.source env.now store ref)

  -- The old state with its start and perhaps its failure recorded: what the last success left stays.
  abbrev pub IsMarked : UpdateError → State → State → Type 0
  IsMarked e old new =
      (new.ref ≡ old.ref)
      × (new.outputs ≡ old.outputs)
      × (new.updated_at ≡ old.updated_at)
      × (((new.updating ≡ false) × (new.last_error ≡ env.describe e)) ⊎ (new.updating ≡ true))

  -- A failed update wrote nothing, unless what failed was a write; the pointers stay, and the state
  -- file is as before, or holds the state before with the failure marked.
  abbrev pub IsAborted : World → World × Result UpdateError (Unit {0}) → Type 0
  IsAborted before (after, ok _) = Unit
  IsAborted before (after, err e) =
      IsGrown before.store after.store
      × ((after.disk ≡ before.disk) ⊎ ((name : String) × (e ≡ not_written name)))
      × ((after.state_file ≡ before.state_file)
          ⊎ ((old new : State) × (load_state before.state_file ≡ some old)
              × (after.state_file ≡ holds (some new))
              × IsMarked e old new))

  IsQuiet : World → World × Result UpdateError (Unit {0}) → Type 0
  IsQuiet before (after, ok _) = Unit
  IsQuiet before (after, err e) =
      (after.store ≡ before.store)
      × ((after.disk ≡ before.disk) ⊎ ((name : String) × (e ≡ not_written name)))
      × (after.state_file ≡ before.state_file)

  record_written-IsQuiet :
      (st : State) (plan : Plan) (w : World) (o : Outcome)
      → IsQuiet w (record_written env st plan w o)
  unfolding record_written IsQuiet
  record_written-IsQuiet st plan w o = elim (Option-cases o.failed) [
    | inl n ↦ rw n tt
    | inr (name, f) ↦ rw f (refl, inr (name, refl), refl)
  ]

  write_ready-IsQuiet :
      (force : Bool) (st : State) (w : World) (plan : Plan) (o : Option String)
      → IsQuiet w (write_ready env force st w plan o)
  unfolding write_ready IsQuiet
  write_ready-IsQuiet force st w plan none =
      record_written-IsQuiet st plan w (write env.host env.hash force w.disk plan.files)
  write_ready-IsQuiet force st w plan (some message) = (refl, inl refl, refl)

  write_plan-IsQuiet :
      (force : Bool) (st : State) (w : World) (r : Result UpdateError Plan)
      → IsQuiet w (write_plan env force st w r)
  unfolding write_plan IsQuiet
  write_plan-IsQuiet force st w (err e) = (refl, inl refl, refl)
  write_plan-IsQuiet force st w (ok plan) =
      write_ready-IsQuiet force st w plan
        (env.ensure_dirs (Target.base_dir env.root plan.snapshot.config) plan.outputs)

  -- Before the plan is written: the snapshot is acquired, and the start perhaps recorded.
  record IsBegun (before w : World) (started : State) : Type 0 where
    grown : IsGrown before.store w.store
    disk : w.disk ≡ before.disk
    marked : (w.state_file ≡ before.state_file) ⊎ (w.state_file ≡ holds (some started))

  save-only :
      (s : State) (w : World)
      → ((save env s w).store ≡ w.store)
        × ((save env s w).disk ≡ w.disk)
        × (((save env s w).state_file ≡ w.state_file)
            ⊎ ((save env s w).state_file ≡ holds (some s)))
  unfolding save
  save-only s w = elim (Bool-cases (env.refuses_state s)) [
    | inl e ↦ rw e (refl, refl, inl refl)
    | inr e ↦ rw e (refl, refl, inr refl)
  ]

  finish-IsAborted :
      (before w : World) (old : State) (kind : String) (r : World × Result UpdateError (Unit {0}))
      → load_state before.state_file ≡ some old
      → IsBegun before w (record_start kind env.now old)
      → IsQuiet w r
      → IsAborted before (finish env (record_start kind env.now old) r)
  unfolding finish IsQuiet record_start record_failure
  finish-IsAborted before w old kind (after, ok _) l b q = tt
  finish-IsAborted before w old kind (after, err e) l b (qs, qd, qf) =
      let started = record_start kind env.now old in
      let failed = record_failure (some (env.describe e)) env.now started in
      let (ss, sd, sf) = save-only failed after in
      (
        subst (IsGrown before.store) (sym (ss ∙ qs)) b.grown,
        elim qd [ inl d ↦ inl (sd ∙ d ∙ b.disk) | inr n ↦ inr n ],
        elim sf [
          | inr f ↦ inr (old, failed, l, f, (refl, refl, refl, inl (refl, refl)))
          | inl f ↦ elim b.marked [
            | inl m ↦ inl (f ∙ qf ∙ m)
            | inr m ↦ inr (old, started, l, f ∙ qf ∙ m, (refl, refl, refl, inr refl))
          ]
        ],
      )

  start-IsAborted :
      (t : Trigger) (before : World) (o : Option State)
      → load_state before.state_file ≡ o
      → IsAborted before (start env t before o)
  unfolding start run
  start-IsAborted t before none l = ((refl, refl, inl refl), inl refl, inl refl)
  start-IsAborted t before (some st) l =
      let started = record_start (kind_text t.kind) env.now st in
      let (ss, sd, sf) = save-only started before in
      let saved = save env started before in
      let p = build_plan env saved.store t.ref in
      finish-IsAborted before (record saved { store = p.0 }) st (kind_text t.kind) _ l
        (record {
          grown = subst (λ s. IsGrown s p.0) ss (build_plan-IsGrown saved.store t.ref);
          disk = sd;
          marked = sf;
        })
        (write_plan-IsQuiet t.force started (record saved { store = p.0 }) p.1)

-- An update that fails: both pointers stay, and the snapshots are as before or one more; the outputs
-- on disk are as before unless the failure is that of a write; and the state file is as before, or
-- it keeps what the last success recorded and says that a run failed or is under way.
pub execute-IsAborted : (env : Env) (t : Trigger) (w : World) → IsAborted env w (execute env t w)
unfolding execute
execute-IsAborted env t w = allowed env.writable
  where
    allowed :
        (b : Bool)
        → IsAborted env w
            (if not b then (w, err read_only) else start env t w (load_state w.state_file))
    allowed true = start-IsAborted env t w (load_state w.state_file) refl
    allowed false = ((refl, refl, inl refl), inl refl, inl refl)
