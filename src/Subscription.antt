-- ===== src/Subscription.antt =====
-- internal/subscription/fetcher.go: FetchAll. The fetch of one subscription is a parameter: the
-- goroutines only fill their own entry of the results, which are read after all have ended.
pub mod Emoji
pub mod Removal
pub mod Naming
pub mod Xray
pub mod Process
pub mod FetchOne
pub mod Fetched
use node_box.Prelude.{
  String, Bool, true, false, Option, none, some, List, [], ◌∷◌, ◌++◌, if◌then◌else◌, Result, ok,
  err, select, length, eqb, Names, Dict, insert, is_nil,
}
use node_box.Node.{Node}
use node_box.Model.{NodesConfig, Subscription}

abbrev pub FetchOne : Type 0
FetchOne = Subscription → Result String (List Node)

-- The nodes by subscription, and the names of the subscriptions that failed.
pub record Fetching : Type 0 where
  pub out : Dict (List Node)
  pub failed : Names

unfoldable pub enabled : List Subscription → List Subscription
enabled subs = select (λ s. s.enable) subs

add_result : Subscription → Fetching → Result String (List Node) → Fetching
add_result s f (ok ns) = record f { out = insert s.name ns f.out }
add_result s f (err _) = record f { failed = f.failed ++ s.name ∷ [] }

-- the loop over the results
unfoldable pub collect : FetchOne → Fetching → List Subscription → Fetching
unfolding add_result
collect fetch f [] = f
collect fetch f (s ∷ ss) = collect fetch (add_result s f (fetch s)) ss

pub data FetchError : Type 0 where
  all_failed : Names → FetchError

unfoldable pub settle : List Subscription → Fetching → Result FetchError (Dict (List Node))
settle subs f = if eqb (length f.failed) (length subs) then err (all_failed f.failed) else ok f.out

fetch_enabled : FetchOne → List Subscription → Result FetchError (Dict (List Node))
unfolding collect settle
fetch_enabled fetch subs =
    if is_nil subs
    then ok []
    else settle subs (collect fetch (record { out = []; failed = [] }) subs)

unfoldable pub fetch_all : FetchOne → NodesConfig → Result FetchError (Dict (List Node))
unfolding fetch_enabled enabled
fetch_all fetch n = fetch_enabled fetch (enabled n.subscriptions)
