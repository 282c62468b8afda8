-- ===== src/Source/Snapshot.antt =====
-- internal/source/snapshot.go: a snapshot is opened where it is stored already, and is otherwise
-- fetched, checked and committed. What the source delivers, and how encoding/json decodes a
-- configuration, are parameters. model.LoadConfig is in internal/model/config.go.
pub mod Acquired
pub mod Modules
use node_box.Prelude.{
  ℕ, String, ◌≡◌, Bool, true, false, not, Option, none, some, List, [], ◌∷◌, ◌==◌, if◌then◌else◌,
  Result, ok, err, ◌>>=◌, ◌>>◌, Names, has, Dict, insert, ◌++◌,
}
use node_box.Model.{Config, ConfigFile, Module}
use node_box.Model.Validate
use node_box.Model.Validate.{validate}
use node_box.Source.Store.{Store, Stored, StoreHost, StoreError, has_snapshot, valid_ref, commit}

pub data OpenError : Type 0 where
  unreadable unparsable : OpenError
  invalid : Validate.Error → OpenError

pub data AcquireError : Type 0 where
  unresolved : AcquireError
  invalid_ref scratch_refused not_fetched : String → AcquireError
  unusable : String → OpenError → AcquireError
  not_committed : StoreError → AcquireError
  not_opened : OpenError → AcquireError

pub record Snapshot : Type 0 where
  pub ref : String
  pub config : Config

-- The interface Source: Materialize yields what config.json then holds, `none` where it has none.
pub record Source : Type 0 where
  pub resolve : Option String
  pub materialize : String → Option (Option String)

abbrev pub Decode : Type 0
Decode = String → Option Config

-- what config.json of a stored snapshot holds
unfoldable pub config_text : String → List Stored → Option String
config_text ref [] = none
config_text ref (s ∷ ss) =
    let later = config_text ref ss in if s.ref == ref then s.config else later

module _ (decode : Decode) where
  checked : Config → Result Validate.Error (Unit {0}) → Result OpenError Config
  checked c (ok _) = ok c
  checked c (err e) = err (invalid e)

  load_decoded : Option Config → Result OpenError Config
  unfolding checked
  load_decoded none = err unparsable
  load_decoded (some c) = checked c (validate c)

  -- Open: a read of config.json, then model.LoadConfig
  unfoldable pub open_config : Option String → Result OpenError Config
  unfolding load_decoded
  open_config none = err unreadable
  open_config (some text) = load_decoded (decode text)

  opened : String → Result OpenError Config → Result AcquireError Snapshot
  opened ref (ok c) = ok (record { ref = ref; config = c })
  opened ref (err e) = err (not_opened e)

  unfoldable pub open_stored : Store → String → Result AcquireError Snapshot
  unfolding opened open_config config_text
  open_stored store ref = opened ref (open_config (config_text ref store.snapshots))

  module _ (host : StoreHost) (source : Source) (now : ℕ) where
    committed : String → Store × Option StoreError → Store × Result AcquireError Snapshot
    committed ref (store, none) = (store, open_stored store ref)
    committed ref (store, some e) = (store, err (not_committed e))

    commit_usable :
        Store
        → String
        → Option String
        → Result OpenError Config
        → Store × Result AcquireError Snapshot
    commit_usable store ref text (err e) = (store, err (unusable ref e))
    commit_usable store ref text (ok _) = committed ref (commit host store ref now text)

    commit_fetched : Store → String → Option (Option String) → Store × Result AcquireError Snapshot
    commit_fetched store ref none = (store, err (not_fetched ref))
    commit_fetched store ref (some text) = commit_usable store ref text (open_config text)

    -- Acquire, for a ref that is known
    unfoldable pub acquire_ref : Store → String → Store × Result AcquireError Snapshot
    unfolding commit_fetched commit_usable committed
    acquire_ref store ref =
        if has_snapshot store ref
        then (store, open_stored store ref)
        else if not (valid_ref ref)
        then (store, err (invalid_ref ref))
        else if host.refuses_scratch
        then (store, err (scratch_refused ref))
        else commit_fetched store ref (source.materialize ref)

    acquire_resolved : Store → Option String → Store × Result AcquireError Snapshot
    acquire_resolved store none = (store, err unresolved)
    acquire_resolved store (some ref) = acquire_ref store ref

    unfoldable pub acquire : Store → String → Store × Result AcquireError Snapshot
    unfolding acquire_resolved acquire_ref
    acquire store ref =
        if ref == "" then acquire_resolved store source.resolve else acquire_ref store ref

-- the modules that some output lists
unfoldable pub used_modules : List ConfigFile → Names
used_modules [] = []
used_modules (cf ∷ cfs) = cf.modules ++ used_modules cfs

-- What a load of a module's content yields: the content, or a message.
abbrev pub Load : Type 0
Load = Module → Result String String

pub data LoadError : Type 0 where
  not_loaded : String → String → LoadError

add_loaded : Module → Dict String → Result String String → Result LoadError (Dict String)
add_loaded m out (ok text) = ok (insert m.name text out)
add_loaded m out (err message) = err (not_loaded m.name message)

-- the loop of LoadModules
unfoldable pub load_each : Load → Names → Dict String → List Module → Result LoadError (Dict String)
unfolding add_loaded
load_each load used out [] = ok out
load_each load used out (m ∷ ms) =
    if not (has m.name used)
    then load_each load used out ms
    else add_loaded m out (load m) >>= λ next. load_each load used next ms

-- Snapshot.LoadModules
unfoldable pub load_modules : Load → Config → Result LoadError (Dict String)
unfolding load_each used_modules
load_modules load c = load_each load (used_modules c.configs) [] c.modules
