-- ===== src/Lib.antt =====
-- node-box turns a repository of sing-box modules, and the subscriptions that it names, into
-- complete sing-box configuration files. One update runs: take a snapshot of the repository, check
-- its config.json, load the modules, fetch the subscriptions, assemble and check each output in
-- memory, and only then write files and move the snapshot pointers.
--
-- Which file models which part:
-- - Json, Node: internal/node/node.go, over the values that encoding/json decodes. An object is its
--   fields in order, with the first field of a name winning; a number is its literal.
-- - TextUtil: internal/textutil/match.go (emoji-blind matching) and the functions of package strings
--   that the program uses. The category table unicode.So is the parameter `so`.
-- - Model, Model/Paths, Model/Validate: internal/model/config.go, with Config.Validate in full.
-- - Build/Injector: internal/build/inject.go (node pool, relays, selector rules).
-- - Build/Apply, Build/Detours: internal/build/apply.go (filling selectors, closing over detours,
--   inserting the nodes).
-- - Build/Assemble: internal/build/assemble.go (merging modules by top-level key).
-- - Build/Validate: internal/build/validate.go (the last check of a document).
-- - Build/Generate: internal/build/build.go (Build, buildOne), which composes the five above.
-- - Output/Write, Output/Dirs: internal/output/write.go. Output/State: internal/output/state.go.
-- - Source/Store: internal/source/store.go (pointers, List, Commit, GC).
-- - Source/Snapshot: internal/source/snapshot.go (Acquire, Open, LoadModules).
-- - Output/Target: internal/output/target.go, and Within of internal/fsx/fsx.go, on a Unix host.
-- - Fetch, Fetch/Retry: internal/fetch/client.go and retry.go (Get, GetWithRetry).
-- - Subscription, Subscription/FetchOne: FetchAll, fetchOne and read of
--   internal/subscription/fetcher.go.
-- - Subscription/Naming, /Removal, /Emoji, TextUtil/Squeeze, TextUtil/Replace: the naming pipeline,
--   internal/subscription/transform.go.
-- - Subscription/Process: internal/subscription/processor.go, the sing-box and the Clash parser.
-- - Subscription/Xray: internal/subscription/xray, the parser of share links.
-- - Model/Bootstrap: internal/model/bootstrap.go (defaults, Validate, LoadBootstrap, Describe).
-- - Source/GitHub, Source/Archive: internal/source/github.go (Resolve with its cache, Materialize,
--   extractTarGz).
-- - Runner/Update: Execute, BuildPlan and acquire of internal/runner/runner.go, which compose the
--   parts above over a world of the snapshot store, the outputs on disk and the state file.
-- - Runner/Queue: the trigger queue of internal/runner/runner.go, and coalesce.go.
-- - Runner/Status, Runner/Rollback: ReadStatus and Rollback of internal/runner/status.go.
-- - Runner/Schedule, Runner/Poll: nextScheduleDelay and pollOnce of internal/runner/loops.go.
-- - Webhook, Webhook/Bucket, Webhook/Float: internal/webhook/server.go (handleHook, verify) and
--   limiter.go, with the rounding of float64.
-- - Control: internal/control/control.go.
-- - Prelude and its children: shared names, lists, results, maps as association lists.
-- - Samples: runs on small inputs, and the theorems at them.
--
-- How the code's notions appear: a function that returns an error is a `Result`, with an error that
-- carries what the message names; a map used as a set is a list of names; a map is an association
-- list whose first entry for a key counts. Where Go walks a map in an unspecified order the model
-- takes one order. An object that the code shares and changes in place (the selectors of a document)
-- is put back into the document after the change.
--
-- Fuel: closeOverDetours gets one step for each needed tag and for each known node, plus one; each
-- round takes a tag off the queue or makes a known node needed, so the fuel suffices, and the theorem
-- of the loop has no case for its end. collapseSpaces gets one round for each rune of its text; a
-- round shortens the text, so its loop ends by its own test. All other loops are structural.
--
-- Parameters, for code outside the repository or for the host: decoding and encoding of JSON, YAML
-- with the vendored conversion of Clash documents, URLs and base64, unicode.So and unicode.ToUpper,
-- SHA-256 and HMAC, the gzip and tar readers, what http.Client answers to each attempt, the clock
-- (one time for one update), what the context says of a sleep, and which files and directories the
-- host lets the program read, create, replace, rename or remove. The fetch of one subscription is a
-- parameter of FetchAll and of an update.
--
-- Not modelled: the vendored Clash converter under upstream/, the local source, the HTTP server
-- around the hook, the lock, logging and the command line. Of the parts above: the scratch
-- directories of the snapshot store, saving the state as JSON, the goroutines and tickers that call
-- the modelled functions, and printing of durations and of the proxy's URL.
pub mod Prelude
pub mod Json
pub mod Node
pub mod Fetch
pub mod Model
pub mod TextUtil
pub mod Build
mod Samples
pub mod Control
pub mod Output
pub mod Source
pub mod Subscription
pub mod Runner
pub mod Webhook
