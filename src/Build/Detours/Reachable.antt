-- ===== src/Build/Detours/Reachable.antt =====
-- The tags that a set of tags leads to along detours, with no queue in it.
use node_box.Prelude.{String, ◌≡◌, ◌≢◌, ◌⊎◌, some, none, Result, ok, err, In, Names, Dict, lookup}
use node_box.Node
use node_box.Node.{Node}
use node_box.Build.Errors.{Error, unknown_detour}

-- `detour d` of the known node `tag` is the text `d`, which is not empty.
pub record PointsAt (by_tag : Dict Node) (tag d : String) : Type 0 where
  pub node : Node
  pub known : lookup tag by_tag ≡ some node
  pub detour : Node.detour node ≡ d
  pub chained : d ≢ ""

pub data Chain (by_tag : Dict Node) (needed : Names) : String → Type 0 where
  start : {tag : String} → In tag needed → Chain by_tag needed tag
  step :
      {tag d : String} (m : Node)
      → Chain by_tag needed tag
      → PointsAt by_tag tag d
      → lookup d by_tag ≡ some m
      → Chain by_tag needed d

-- Every detour of the known node `tag` leads to `closed`, or to a tag that the document declares
-- and that is no known node.
abbrev pub IsResolved : Dict Node → Names → Names → String → Type 0
IsResolved by_tag present closed tag =
    (d : String) → PointsAt by_tag tag d → In d closed ⊎ ((lookup d by_tag ≡ none) × In d present)

-- A detour of `tag` that leads nowhere.
pub record IsDangling (by_tag : Dict Node) (present : Names) (tag d : String) : Type 0 where
  pub points : PointsAt by_tag tag d
  pub unknown : lookup d by_tag ≡ none
  pub absent : ¬ In d present

-- `closed` holds what the detours of `needed` reach, and every detour of it is resolved.
pub record IsClosure (by_tag : Dict Node) (present needed closed : Names) : Type 0 where
  pub sound : (tag : String) → In tag closed → Chain by_tag needed tag
  pub complete : (tag : String) → Chain by_tag needed tag → In tag closed
  pub resolved : (tag : String) → In tag closed → IsResolved by_tag present closed tag

-- The two ways in which closeOverDetours may end.
pub data Outcome (by_tag : Dict Node) (present needed : Names) : Result Error Names → Type 0 where
  closes :
      {closed : Names}
      → IsClosure by_tag present needed closed
      → Outcome by_tag present needed (ok closed)
  fails :
      {tag d : String}
      → Chain by_tag needed tag
      → IsDangling by_tag present tag d
      → Outcome by_tag present needed (err (unknown_detour tag d))
