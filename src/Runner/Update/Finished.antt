-- ===== src/Runner/Update/Finished.antt =====
-- Execute of internal/runner/runner.go: an update that succeeds.
use node_box.Prelude.{
  String, ◌≡◌, ◌⊎◌, refl, sym, ap, subst, ◌∙◌, inl, inr, Bool, true, false, not, Option, none, some,
  Bool-cases, Option-cases, if◌then◌else◌, Result, ok, err, In, lookup, IsDistinct,
}
use node_box.Control.{Trigger}
use node_box.Build.Generate.{File}
use node_box.Build.Generate.Files.{Answers}
use node_box.Output.Target.{base_dir}
use node_box.Output.Target.{join}
use node_box.Output.Target.Under.{base_of}
use node_box.Output.Target.Destinations.{AreTargets, paths}
use node_box.Output.State.{State, load_state, record_start, record_success, holds}
use node_box.Output.Write.{write}
use node_box.Output.Write.Committed.{write-IsCommitted}
use node_box.Source.Store.{Store}
use node_box.Runner.Update.Frame.{IsGrown, build_plan-IsGrown}
use node_box.Runner.Update.{
  World, Env, Plan, UpdateError, read_only, build_plan, save, move_pointers, record_written,
  write_ready, write_plan, run, finish, start, execute, kind_text,
}
use node_box.Runner.Update.Planned.{IsUsable, IsPlanned, paths_of_files, build_plan-ok}
use node_box.Runner.Update.Moved.{IsMoved, move_pointers-IsMoved, IsMoved-gc}

module _ (env : Env) where
  -- The plan that was written, and what the write, the pointers and the state file became.
  pub record IsWritten (old : State) (ref : String) (before after : World) (acquired : Store)
      (plan : Plan) : Type 0 where
    pub grown : IsGrown before.store acquired
    pub usable : IsUsable env ref acquired plan.snapshot
    pub targets :
        AreTargets
          (base_of env.root plan.snapshot.config.output)
          (join env.root "snapshots")
          plan.snapshot.config.configs
          plan.outputs
    pub answers : Answers env.marshal plan.outputs plan.files
    pub on_disk : (f : File) → In f plan.files → lookup f.path after.disk ≡ some f.content
    pub others :
        (p : String) → (¬ In p (paths plan.outputs)) → lookup p after.disk ≡ lookup p before.disk
    pub moved : IsMoved env old.ref plan.snapshot.ref acquired after.store
    pub recorded :
        (new : State) × (new.ref ≡ plan.snapshot.ref)
        × (new.updating ≡ false)
        × (new.last_error ≡ "")
        × ((after.state_file ≡ holds (some new)) ⊎ (env.refuses_state new ≡ true))

  abbrev pub IsFinished : Trigger → World → World × Result UpdateError (Unit {0}) → Type 0
  IsFinished t before (after, err e) = Unit
  IsFinished t before (after, ok _) =
      (old : State) × (load_state before.state_file ≡ some old)
      × (acquired : Store) × (plan : Plan) × IsWritten old t.ref before after acquired plan

  save-records :
      (new : State) (w : World)
      → ((save env new w).state_file ≡ holds (some new)) ⊎ (env.refuses_state new ≡ true)
  unfolding save
  save-records new w = elim (Bool-cases (env.refuses_state new)) [
    | inl e ↦ inr e
    | inr e ↦ inl (rw e refl)
  ]

  save-keeps :
      (new : State) (w : World)
      → ((save env new w).store ≡ w.store) × ((save env new w).disk ≡ w.disk)
  unfolding save
  save-keeps new w = elim (Bool-cases (env.refuses_state new)) [
    | inl e ↦ rw e (refl, refl)
    | inr e ↦ rw e (refl, refl)
  ]

  -- What is known once the plan stands.
  record IsReady (old st : State) (t : Trigger) (before w : World) (plan : Plan) : Type 0 where
    loaded : load_state before.state_file ≡ some old
    started : st.ref ≡ old.ref
    disk : w.disk ≡ before.disk
    grown : IsGrown before.store w.store
    usable : IsUsable env t.ref w.store plan.snapshot
    planned : IsPlanned env plan.snapshot plan

  record_written-IsFinished :
      (old st : State) (t : Trigger) (before w : World) (plan : Plan)
      → IsReady old st t before w plan
      → IsFinished t before
          (record_written env st plan w (write env.host env.hash t.force w.disk plan.files))
  unfolding record_written record_success
  record_written-IsFinished old st t before w plan y =
      let o = write env.host env.hash t.force w.disk plan.files in
      let same = paths_of_files env.marshal plan.outputs plan.files y.planned.answers in
      let c =
        write-IsCommitted env.host env.hash t.force w.disk plan.files
          (subst IsDistinct (sym same) y.planned.distinct) in
      let new = record_success plan.snapshot.ref o.hashes env.now st in
      let moved = move_pointers env st.ref plan.snapshot.ref w.store in
      let w' : World = record w { store = moved; disk = o.disk } in
      let (ks, kd) = save-keeps new w' in
      elim (Option-cases o.failed) [
        | inr (name, f) ↦ rw f tt
        | inl n ↦ rw n (
          old,
          y.loaded,
          w.store,
          plan,
          record {
            grown = y.grown;
            usable = y.usable;
            targets = y.planned.targets;
            answers = y.planned.answers;
            on_disk =
                λ g i. subst (λ d. lookup g.path d ≡ some g.content) (sym kd) (c.on_disk n g i);
            others = λ p h.
                subst (λ d. lookup p d ≡ lookup p before.disk) (sym kd)
                  (c.others p (subst (λ l. ¬ In p l) (sym same) h) ∙ ap (lookup p) y.disk);
            moved = IsMoved-gc env old.ref plan.snapshot.ref w.store (save env new w').store (
                subst (IsMoved env old.ref plan.snapshot.ref w.store) (sym ks) (
                  subst (λ r. IsMoved env r plan.snapshot.ref w.store moved) y.started
                    (move_pointers-IsMoved env st.ref plan.snapshot.ref w.store)));
            recorded = (new, refl, refl, refl, save-records new w');
          },
        )
      ]

  write_plan-IsFinished :
      (old st : State) (t : Trigger) (before w : World) (r : Result UpdateError Plan)
      → ((plan : Plan) → r ≡ ok plan → IsReady old st t before w plan)
      → IsFinished t before (write_plan env t.force st w r)
  unfolding write_plan write_ready
  write_plan-IsFinished old st t before w (err e) y = tt
  write_plan-IsFinished old st t before w (ok plan) y =
      go (env.ensure_dirs (base_dir env.root plan.snapshot.config) plan.outputs)
    where
      go : (o : Option String) → IsFinished t before (write_ready env t.force st w plan o)
      go none = record_written-IsFinished old st t before w plan (y plan refl)
      go (some message) = tt

  finish-IsFinished :
      (t : Trigger) (before : World) (st : State) (r : World × Result UpdateError (Unit {0}))
      → IsFinished t before r
      → IsFinished t before (finish env st r)
  unfolding finish
  finish-IsFinished t before st (w, ok u) f = f
  finish-IsFinished t before st (w, err e) f = tt

  start-IsFinished :
      (t : Trigger) (before : World) (o : Option State)
      → load_state before.state_file ≡ o
      → IsFinished t before (start env t before o)
  unfolding start run record_start
  start-IsFinished t before none l = tt
  start-IsFinished t before (some old) l =
      let st = record_start (kind_text t.kind) env.now old in
      let (ks, kd) = save-keeps st before in
      let saved = save env st before in
      let p = build_plan env saved.store t.ref in
      finish-IsFinished t before st _ (
        write_plan-IsFinished old st t before (record saved { store = p.0 }) p.1
          (λ plan h.
            let (u, q) = build_plan-ok env saved.store t.ref plan h in
            record {
              loaded = l;
              started = refl;
              disk = kd;
              grown = subst (λ s. IsGrown s p.0) ks (build_plan-IsGrown env saved.store t.ref);
              usable = u;
              planned = q;
            }))

-- An update that succeeds: it built from a stored snapshot, the requested one if one was, with a
-- valid configuration; every output of that configuration has its file, the encoding of a
-- well-formed document, at its destination on disk, and no other path has changed; `current` reads
-- as the snapshot's ref and `previous` as the ref that was applied before, if that is another one
-- that is still stored, and where the host lets the pointers be written; and the state that is saved
-- records the ref and no error.
pub execute-IsFinished :
    (env : Env) (t : Trigger) (w : World) → IsFinished env t w (execute env t w)
unfolding execute
execute-IsFinished env t w = allowed env.writable
  where
    allowed :
        (b : Bool)
        → IsFinished env t w
            (if not b then (w, err read_only) else start env t w (load_state w.state_file))
    allowed true = start-IsFinished env t w (load_state w.state_file) refl
    allowed false = tt
