-- ===== src/Build/Detours.antt =====
-- closeOverDetours of internal/build/apply.go: the upstream of every chained node that is needed is
-- needed too. The queue's end is the head of the list. Go fills the queue in the order of a map; the
-- model takes the order of `needed`. The loop runs on fuel.
pub mod Closed
pub mod Reachable
use node_box.Prelude.{
  ℕ, zero, suc, ◌+◌, String, ◌||◌, Option, none, some, List, [], ◌∷◌, ◌==◌, if◌then◌else◌, Result,
  ok, err, Names, has, Dict, lookup, length,
}
use node_box.Node
use node_box.Node.{Node}
use node_box.Build.Errors.{Error, unknown_detour, out_of_fuel}

-- What one round does with the tag that it takes from the queue.
pub data Move : Type 0 where
  skip : Move
  add : String → Move
  dangling : String → String → Move

-- a detour that is neither empty nor needed already
resolve_detour : Dict Node → Names → String → String → Move
resolve_detour by_tag present tag detour = elim (lookup detour by_tag) [
  | some _ ↦ add detour
  | none ↦ if has detour present then skip else dangling tag detour
]

follow_node : Dict Node → Names → Names → String → Option Node → Move
follow_node by_tag present needed tag none = skip
follow_node by_tag present needed tag (some n) =
    if Node.detour n == "" || has (Node.detour n) needed
    then skip
    else resolve_detour by_tag present tag (Node.detour n)

unfoldable pub follow : Dict Node → Names → Names → String → Move
unfolding follow_node resolve_detour
follow by_tag present needed tag = follow_node by_tag present needed tag (lookup tag by_tag)

unfoldable pub close_loop : ℕ → Dict Node → Names → List String → Names → Result Error Names
close_loop f by_tag present [] needed = ok needed
close_loop zero by_tag present (tag ∷ queue) needed = err out_of_fuel
close_loop (suc f) by_tag present (tag ∷ queue) needed = elim (follow by_tag present needed tag) [
  | skip ↦ close_loop f by_tag present queue needed
  | add d ↦ close_loop f by_tag present (d ∷ queue) (d ∷ needed)
  | dangling t d ↦ err (unknown_detour t d)
]

unfoldable pub close_over_detours : Dict Node → Names → Names → Result Error Names
unfolding close_loop follow
close_over_detours by_tag present needed =
    close_loop (suc (length needed + length by_tag)) by_tag present needed needed
