-- ===== src/Runner/Update/Planned.antt =====
-- BuildPlan of internal/runner/runner.go: what a plan is made of.
use node_box.Prelude.{
  String, ◌≡◌, ◌≢◌, refl, sym, ap₂, subst, inl, inr, true, Option, none, some, List, [], ◌∷◌, map,
  arith, ◌==◌, eq_iff, Bool-cases, Result, ok, err, >>=-eq-ok, IsDistinct,
}
use node_box.Subscription.{fetch_all}
use node_box.TextUtil.{trim_space}
use node_box.Model.Validate.Spec.{IsValid}
use node_box.Build.Generate.{File, Target, Input, Marshal, build}
use node_box.Build.Generate.Files.{Answers, build-Answers}
use node_box.Output.Target
use node_box.Output.Target.{base_dir, snapshots_dir, resolve}
use node_box.Output.Target.{join}
use node_box.Output.Target.Under.{base_of}
use node_box.Output.Target.Destinations.{AreTargets, paths, IsResolved, resolve-IsResolved}
use node_box.Source.Store.{
  Store, Pointer, current_pointer, pointer, read_pointer, usable, content, has_snapshot,
}
use node_box.Source.Snapshot.{Snapshot, AcquireError, acquire, open_stored, load_modules}
use node_box.Source.Snapshot.Acquired.{IsAcquired, acquire-IsAcquired, open_stored-ok}
use node_box.Runner.Update.{
  Env, Plan, bad_targets, bad_dirs, not_loaded, not_fetched, not_built, fail_some, nodes_of,
  acquire_or_fall_back, or_fall_back, fall_back, map_err, plan_from, build_plan,
}

usable-some :
    (store : Store) (t r : String)
    → usable store t ≡ some r
    → (t ≡ r) × (has_snapshot store t ≡ true)
unfolding usable
usable-some store t r h = (ground arith, ground arith)

pub pointer-known :
    (store : Store) (p : Pointer) (r : String)
    → pointer store p ≡ some r
    → has_snapshot store r ≡ true
unfolding pointer read_pointer
pointer-known store p r h = read (content store p) h
  where
    read : (o : Option String) → read_pointer store o ≡ some r → has_snapshot store r ≡ true
    read none q = cc
    read (some text) q =
        let (e, k) = usable-some store (trim_space text) r q in
        subst (λ x. has_snapshot store x ≡ true) e k

map_err-ok : {E F A : Type 0} (f : E → F) (r : Result E A) (a : A) → map_err f r ≡ ok a → r ≡ ok a
unfolding map_err
map_err-ok f (ok b) a h = ground arith
map_err-ok f (err e) a h = cc

pub paths_of_files :
    (marshal : Marshal) (os : List Target) (fs : List File)
    → Answers marshal os fs
    → map (λ (f : File). f.path) fs ≡ paths os
paths_of_files marshal [] [] a = refl
paths_of_files marshal (o ∷ os) (f ∷ fs) ((n, p, g), a) =
    ap₂ (λ (x : String) (l : List String). x ∷ l) p (paths_of_files marshal os fs a)
paths_of_files marshal [] (f ∷ fs) a = absurd a
paths_of_files marshal (o ∷ os) [] a = absurd a

module _ (env : Env) where
  -- The snapshot that is built from is stored, is the requested one if one was, and has a valid
  -- configuration.
  pub record IsUsable (ref : String) (store : Store) (snap : Snapshot) : Type 0 where
    pub stored : has_snapshot store snap.ref ≡ true
    pub requested : ref ≢ "" → snap.ref ≡ ref
    pub valid : IsValid snap.config

  fall_back-ok :
      (store : Store) (e : AcquireError) (o : Option String) (snap : Snapshot)
      → fall_back env store e o ≡ ok snap
      → (ref : String) × (o ≡ some ref) × (open_stored env.decode store ref ≡ ok snap)
  unfolding fall_back
  fall_back-ok store e none snap h = cc
  fall_back-ok store e (some ref) snap h = (ref, refl, map_err-ok _ _ snap h)

  usable_or_fall_back :
      (store after : Store) (ref : String) (r : Result AcquireError Snapshot) (snap : Snapshot)
      → IsAcquired env.decode env.source env.now store ref (after, r)
      → or_fall_back env ref after r ≡ ok snap
      → IsUsable ref after snap
  unfolding or_fall_back
  usable_or_fall_back store after ref (ok got) snap (q, s, (text, _, _, v), x) h =
      let same : got ≡ snap = ground arith in
      subst (IsUsable ref after) same (record {
        stored = s;
        requested = λ ne. elim q [ inl z ↦ z.1 | inr z ↦ absurd (ne z.0) ];
        valid = v;
      })
  usable_or_fall_back store after ref (err e) snap a h = elim (Bool-cases (ref == "")) [
    | inr f ↦ ground arith
    | inl t ↦
        let back : fall_back env after e (pointer after current_pointer) ≡ ok snap = ground arith in
        let (fb, p, o) = fall_back-ok after e (pointer after current_pointer) snap back in
        let (same, (text, _, _, v)) = open_stored-ok env.decode after fb snap o in
        record {
          stored =
              subst (λ x. has_snapshot after x ≡ true) (sym same)
                (pointer-known after current_pointer fb p);
          requested = λ ne. absurd (ne ((eq_iff ref "").0 t));
          valid = v;
        }
  ]

  pub record IsPlanned (snap : Snapshot) (plan : Plan) : Type 0 where
    pub same : plan.snapshot ≡ snap
    pub targets :
        AreTargets
          (base_of env.root snap.config.output)
          (join env.root "snapshots")
          snap.config.configs
          plan.outputs
    pub distinct : IsDistinct (paths plan.outputs)
    pub answers : Answers env.marshal plan.outputs plan.files

  plan_from-ok :
      (snap : Snapshot) (plan : Plan) → plan_from env snap ≡ ok plan → IsPlanned snap plan
  unfolding plan_from
  plan_from-ok snap plan h =
      let (outs, e1, h1) =
        >>=-eq-ok (map_err bad_targets (Target.resolve env.root snap.config)) _ h in
      let (_, _, h2) =
        >>=-eq-ok (fail_some bad_dirs (env.check_dirs (base_dir env.root snap.config) outs)) _ h1 in
      let (modules, _, h3) =
        >>=-eq-ok (map_err not_loaded (load_modules (env.load snap.ref) snap.config)) _ h2 in
      let (nodes, _, h4) =
        >>=-eq-ok (map_err not_fetched (fetch_all env.fetch (nodes_of snap.config))) _ h3 in
      let inp : Input = record {
        config = some snap.config;
        modules = modules;
        nodes = nodes;
        outputs = outs;
      } in
      let (files, e5, h5) =
        >>=-eq-ok (map_err not_built (build env.so env.unmarshal env.marshal inp)) _ h4 in
      let res = map_err-ok bad_targets (Target.resolve env.root snap.config) outs e1 in
      let r : IsResolved env.root snap.config (ok outs) =
        subst (IsResolved env.root snap.config) res (resolve-IsResolved env.root snap.config) in
      let b =
        build-Answers env.so env.unmarshal env.marshal inp files
          (map_err-ok not_built (build env.so env.unmarshal env.marshal inp) files e5) in
      let made : record { snapshot = snap; files = files; outputs = outs } ≡ plan = ground arith in
      subst (IsPlanned snap) made
        (record { same = refl; targets = r.0; distinct = r.1; answers = b })

  pub build_plan-ok :
      (store : Store) (ref : String) (plan : Plan)
      → (build_plan env store ref).1 ≡ ok plan
      → IsUsable ref (build_plan env store ref).0 plan.snapshot × IsPlanned plan.snapshot plan
  unfolding build_plan acquire_or_fall_back
  build_plan-ok store ref plan h =
      let r = acquire env.decode env.store_host env.source env.now store ref in
      let (snap, e, q) = >>=-eq-ok (or_fall_back env ref r.0 r.1) (plan_from env) h in
      let u =
        usable_or_fall_back store r.0 ref r.1 snap
          (acquire-IsAcquired env.decode env.store_host env.source env.now store ref) e in
      let p = plan_from-ok snap plan q in
      (subst (IsUsable ref r.0) (sym p.same) u, subst (λ s. IsPlanned s plan) (sym p.same) p)
