-- ===== src/Samples/Update.antt =====
-- A whole update, and its parts that reach outside.
use node_box.Prelude.{
  ◌≡◌, refl, true, false, none, some, [], ◌∷◌, IsDistinct, ok, has, lookup, insert, select,
}
use node_box.TextUtil.{concat, trim_space, has_prefix, contains_ignore_emoji}
use node_box.Node
use node_box.Node.{Node}
use node_box.Json.{put, get, items, elements, objects}
use node_box.Build.Injector.{new_injector, index_modules, fill_pool, rules_for, nodes_at, members}
use node_box.Build.Assemble.{assemble}
use node_box.Build.Apply.{inject}
use node_box.Build.Validate.{validate_document}
use node_box.Build.Generate.{build, build_one, remove_empty_top_level, encode}
use node_box.Model.Paths.{check_repo_rel_path}
use node_box.Model.Validate.{validate, has_bracket}
use node_box.Output.Write.{write, write_one, matches_disk}
use node_box.Control.{Trigger, manual}
use node_box.Output.State.{empty_state, missing, load_state, record_start}
use node_box.Output.Target
use node_box.Output.Target.{TargetError, same_path}
use node_box.Output.Target.Destinations.{IsResolved, resolve-IsResolved}
use node_box.Source.Store.{
  has_snapshot, refs, commit, valid_ref, set_pointer, pointer, current_pointer,
}
use node_box.Source.Snapshot.{
  Source, Decode, Load, acquire, load_modules, open_stored, config_text, open_config, used_modules,
}
use node_box.Source.Snapshot.Acquired.{IsAcquired, acquire-IsAcquired}
use node_box.Source.Snapshot.Modules.{IsLoaded, load_modules-IsLoaded}
use node_box.Subscription.{FetchOne, fetch_all, enabled}
use node_box.Subscription.Fetched
use node_box.Subscription.Fetched.{IsFetched, fetch_all-IsFetched}
use node_box.Runner.Update.{Env, World, execute, kind_text}
use node_box.Runner.Update.Frame.{IsAborted, execute-IsAborted}
use node_box.Runner.Update.Finished.{IsFinished, execute-IsFinished}
use node_box.Runner.Rollback.{rollback}
use node_box.Runner.Rollback.Returned.{IsReturned, rollback-IsReturned}
use node_box.Runner.Status.{read_status}
use node_box.Runner.Status.Reported.{IsSettled, read_status-IsSettled}
use node_box.Source.Store.{gc}
use node_box.Samples.Pipeline.{config, nodes_config, server, unmarshal, marshal, no_symbols}
use node_box.Samples.Host.{store, store_host, host, hash}

abbrev decode : Decode
decode text = some config

abbrev source : Source
source = record { resolve = some "new"; materialize = λ ref. some (some "{}") }

abbrev load : Load
load m = ok "{...}"

abbrev fetch : FetchOne
fetch s = ok (server "[air] HK" ∷ [])

abbrev env : Env
env = record {
  writable = true;
  cancelled = false;
  root = "/srv/node-box";
  source = source;
  decode = decode;
  load = λ ref. load;
  fetch = fetch;
  check_dirs = λ dir outs. none;
  ensure_dirs = λ dir outs. none;
  host = host;
  store_host = store_host;
  refuses_state = λ s. false;
  hash = hash;
  so = no_symbols;
  unmarshal = unmarshal;
  marshal = marshal;
  describe = λ e. "failed";
  now = 7;
}

abbrev by_hand : Trigger
by_hand = record { kind = manual; ref = ""; force = false }

abbrev world : World
world = record { store = store; disk = []; state_file = missing }

destination_is_below_out :
    Target.resolve "/srv/node-box" config
    ≡ ok (
        record {
          config = record { name = "main"; path = "main.json"; modules = "base" ∷ [] };
          path = "/srv/node-box/out/main.json";
        }
        ∷ [])
unfolding Target.resolve lookup Target.within Target.destination concat
destination_is_below_out = refl

one-IsDistinct : IsDistinct (Fetched.names (enabled nodes_config.subscriptions))
unfolding enabled select
one-IsDistinct = (λ i. i, tt)

update_succeeds : (execute env by_hand world).1 ≡ ok tt
unfolding execute load_state record_start kind_text acquire has_snapshot has refs commit open_stored
    config_text valid_ref Target.resolve Target.within Target.destination lookup concat insert
    load_modules fetch_all enabled select build build_one assemble put get items trim_space Node.tag
    Node.type Node.detour has_prefix elements objects new_injector inject remove_empty_top_level
    validate_document encode index_modules fill_pool rules_for nodes_at members
    contains_ignore_emoji Node.clone Node.clone_map write write_one matches_disk validate
    has_bracket check_repo_rel_path open_config used_modules set_pointer pointer
update_succeeds = refl

fetch_all-IsFetched_example :
    IsFetched fetch (enabled nodes_config.subscriptions) (fetch_all fetch nodes_config)
fetch_all-IsFetched_example = fetch_all-IsFetched fetch nodes_config one-IsDistinct

resolve-IsResolved_example :
    IsResolved "/srv/node-box" config (Target.resolve "/srv/node-box" config)
resolve-IsResolved_example = resolve-IsResolved "/srv/node-box" config

acquire-IsAcquired_example :
    IsAcquired decode source 7 store "" (acquire decode store_host source 7 store "")
acquire-IsAcquired_example = acquire-IsAcquired decode store_host source 7 store ""

load_modules-IsLoaded_example : IsLoaded load config (load_modules load config)
load_modules-IsLoaded_example = load_modules-IsLoaded load config (λ i. i, tt)

execute-IsAborted_example : IsAborted env world (execute env by_hand world)
execute-IsAborted_example = execute-IsAborted env by_hand world

execute-IsFinished_example : IsFinished env by_hand world (execute env by_hand world)
execute-IsFinished_example = execute-IsFinished env by_hand world

-- `previous` names the snapshot that was there before.
abbrev rolled : World
rolled = record world { store = record store { previous = some "a\n" } }

rollback-IsReturned_example : IsReturned env rolled (rollback env rolled)
rollback-IsReturned_example = rollback-IsReturned env rolled refl

rollback_goes_back : pointer (rollback env rolled).0.store current_pointer ≡ some "a"
unfolding rollback execute load_state record_start kind_text acquire has_snapshot has refs commit
    open_stored config_text valid_ref Target.resolve Target.within Target.destination lookup concat
    insert load_modules fetch_all enabled select build build_one assemble put get items trim_space
    Node.tag Node.type Node.detour has_prefix elements objects new_injector inject
    remove_empty_top_level validate_document encode index_modules fill_pool rules_for nodes_at
    members contains_ignore_emoji Node.clone Node.clone_map write write_one matches_disk validate
    has_bracket check_repo_rel_path open_config used_modules set_pointer pointer gc
rollback_goes_back = refl

no_state_yet : load_state world.state_file ≡ some empty_state
unfolding load_state
no_state_yet = refl

read_status-IsSettled_example :
    IsSettled env
      (execute env by_hand world).1
      (read_status "local:/srv" true (execute env by_hand world).0)
read_status-IsSettled_example =
    read_status-IsSettled env by_hand world empty_state "local:/srv" true (λ s. refl) refl
      no_state_yet
