-- ===== src/Runner/Update.antt =====
-- Runner.Execute and what it calls, of internal/runner/runner.go, over the world that one update
-- sees: the snapshot store, the outputs on disk and the state file. The network, the clock, the
-- host and the cancellation of the context are the parameter `env`. The directories of the outputs
-- are not part of the world.
pub mod Frame
pub mod Planned
pub mod Moved
pub mod Finished
pub mod Ended
use node_box.Prelude.{
  ℕ, String, Bool, true, false, not, ◌&&◌, ◌||◌, Option, none, some, List, [], ◌∷◌, ◌==◌,
  if◌then◌else◌, Result, ok, err, ◌>>=◌, ◌>>◌, Dict,
}
use node_box.Node.{Node}
use node_box.Control.{Trigger, Kind, startup, schedule, poll, webhook, signal, manual}
use node_box.Model.{Config, NodesConfig}
use node_box.TextUtil.{RuneClass}
use node_box.Build.Errors
use node_box.Subscription.{FetchOne, FetchError, fetch_all}
use node_box.Build.Assemble.{Unmarshal}
use node_box.Build.Generate.{Target, File, Marshal, Input, nodes_config, build}
use node_box.Output.State.{
  State, StateFile, load_state, record_start, record_success, record_failure, holds,
}
use node_box.Output.Target
use node_box.Output.Target.{TargetError}
use node_box.Output.Write.{Disk, Host, Outcome, write}
use node_box.Source.Store.{
  Store, StoreHost, StoreError, Pointer, current_pointer, previous_pointer, pointer, set_pointer,
  gc, default_keep,
}
use node_box.Source.Snapshot.{
  Source, Snapshot, Decode, AcquireError, OpenError, Load, LoadError, acquire, open_stored,
  load_modules,
}

pub record World : Type 0 where
  pub store : Store
  pub disk : Disk
  pub state_file : StateFile

-- `fetch` is the fetch of one subscription; `load` reads a module of a snapshot; `check_dirs` and
-- `ensure_dirs` yield the message of their error, and `describe` that of any.
pub data UpdateError : Type 0 where
  read_only state_unreadable : UpdateError
  not_acquired no_snapshot : AcquireError → UpdateError
  requested_unavailable fallback_unusable : String → AcquireError → UpdateError
  bad_targets : TargetError → UpdateError
  bad_dirs no_dirs : String → UpdateError
  not_loaded : LoadError → UpdateError
  not_fetched : FetchError → UpdateError
  not_built : Errors.Error → UpdateError
  not_written : String → UpdateError

pub record Env : Type 0 where
  pub writable : Bool
  pub cancelled : Bool
  pub root : String
  pub source : Source
  pub decode : Decode
  pub load : String → Load
  pub fetch : FetchOne
  pub check_dirs : String → List Target → Option String
  pub ensure_dirs : String → List Target → Option String
  pub host : Host
  pub store_host : StoreHost
  pub refuses_state : State → Bool
  pub hash : String → String
  pub so : RuneClass
  pub unmarshal : Unmarshal
  pub marshal : Marshal
  pub describe : UpdateError → String
  pub now : ℕ

pub record Plan : Type 0 where
  pub snapshot : Snapshot
  pub files : List File
  pub outputs : List Target

unfoldable pub map_err : {E F A : Type 0} → (E → F) → Result E A → Result F A
map_err f (ok a) = ok a
map_err f (err e) = err (f e)

unfoldable pub kind_text : Kind → String
kind_text startup = "startup"
kind_text schedule = "schedule"
kind_text poll = "poll"
kind_text webhook = "webhook"
kind_text signal = "signal"
kind_text manual = "manual"

nodes_of : Config → NodesConfig
nodes_of c = nodes_config c.nodes

fail_some : {E : Type 0} → (String → E) → Option String → Result E (Unit {0})
fail_some f none = ok tt
fail_some f (some message) = err (f message)

module _ (env : Env) where
  fall_back : Store → AcquireError → Option String → Result UpdateError Snapshot
  unfolding map_err
  fall_back store e none = err (no_snapshot e)
  fall_back store e (some ref) = map_err (fallback_unusable ref) (open_stored env.decode store ref)

  or_fall_back : String → Store → Result AcquireError Snapshot → Result UpdateError Snapshot
  or_fall_back ref store (ok snap) = ok snap
  or_fall_back ref store (err e) =
      if env.cancelled
      then err (not_acquired e)
      else if not (ref == "")
      then err (requested_unavailable ref e)
      else fall_back store e (pointer store current_pointer)

  -- Runner.acquire
  unfoldable pub acquire_or_fall_back : Store → String → Store × Result UpdateError Snapshot
  unfolding or_fall_back fall_back
  acquire_or_fall_back store ref =
      let r = acquire env.decode env.store_host env.source env.now store ref in
      (r.0, or_fall_back ref r.0 r.1)

  -- BuildPlan, from the snapshot on
  unfoldable pub plan_from : Snapshot → Result UpdateError Plan
  unfolding nodes_of fail_some map_err
  plan_from snap = do
    outs ← map_err bad_targets (Target.resolve env.root snap.config)
    fail_some bad_dirs (env.check_dirs (Target.base_dir env.root snap.config) outs)
    modules ← map_err not_loaded (load_modules (env.load snap.ref) snap.config)
    nodes ← map_err not_fetched (fetch_all env.fetch (nodes_of snap.config))
    files ← map_err not_built (
        build env.so env.unmarshal env.marshal
          (record { config = some snap.config; modules = modules; nodes = nodes; outputs = outs }))
    ok (record { snapshot = snap; files = files; outputs = outs })

  -- Runner.BuildPlan
  unfoldable pub build_plan : Store → String → Store × Result UpdateError Plan
  unfolding acquire_or_fall_back plan_from
  build_plan store ref = let r = acquire_or_fall_back store ref in (r.0, r.1 >>= plan_from)

  -- state.Save; a failure is only logged
  unfoldable pub save : State → World → World
  save s w = if env.refuses_state s then w else record w { state_file = holds (some s) }

  -- the pointer that a success moves first; its error is only logged
  unfoldable pub keep_previous : String → String → Store → Store
  keep_previous applied ref store =
      if not (applied == "") && not (applied == ref)
      then (set_pointer env.store_host store previous_pointer applied).0
      else store

  unfoldable pub move_pointers : String → String → Store → Store
  unfolding keep_previous
  move_pointers applied ref store =
      (set_pointer env.store_host (keep_previous applied ref store) current_pointer ref).0

  record_written : State → Plan → World → Outcome → World × Result UpdateError (Unit {0})
  record_written st plan w o = elim o.failed [
    | some name ↦ (record w { disk = o.disk }, err (not_written name))
    | none ↦
        let moved = move_pointers st.ref plan.snapshot.ref w.store in
        let saved =
          save (record_success plan.snapshot.ref o.hashes env.now st)
            (record w { store = moved; disk = o.disk }) in
        (record saved { store = gc env.store_host saved.store default_keep }, ok tt)
  ]

  write_ready : Bool → State → World → Plan → Option String → World × Result UpdateError (Unit {0})
  unfolding record_written
  write_ready force st w plan (some message) = (w, err (no_dirs message))
  write_ready force st w plan none =
      record_written st plan w (write env.host env.hash force w.disk plan.files)

  -- Runner.execute, from the plan on
  unfoldable pub write_plan :
      Bool → State → World → Result UpdateError Plan → World × Result UpdateError (Unit {0})
  unfolding write_ready move_pointers save
  write_plan force st w (err e) = (w, err e)
  write_plan force st w (ok plan) =
      write_ready force st w plan
        (env.ensure_dirs (Target.base_dir env.root plan.snapshot.config) plan.outputs)

  -- Runner.execute
  unfoldable pub run : Trigger → State → World → World × Result UpdateError (Unit {0})
  unfolding build_plan write_plan
  run t st w =
      let r = build_plan w.store t.ref in write_plan t.force st (record w { store = r.0 }) r.1

  -- what Execute makes of the result
  finish : State → World × Result UpdateError (Unit {0}) → World × Result UpdateError (Unit {0})
  finish st (w, ok _) = (w, ok tt)
  finish st (w, err e) = (save (record_failure (some (env.describe e)) env.now st) w, err e)

  start : Trigger → World → Option State → World × Result UpdateError (Unit {0})
  start t w none = (w, err state_unreadable)
  start t w (some st) =
      let started = record_start (kind_text t.kind) env.now st in
      finish started (run t started (save started w))

  -- Runner.Execute
  unfoldable pub execute : Trigger → World → World × Result UpdateError (Unit {0})
  unfolding start finish run save
  execute t w = if not env.writable then (w, err read_only) else start t w (load_state w.state_file)
