-- ===== src/Subscription/Naming.antt =====
-- internal/subscription/transform.go: the steps of the naming pipeline over one subscription's
-- nodes. Go edits the nodes in place; the fetcher owns them, so a step returns the edited list.
pub mod Prefixed
pub mod Excluded
use Prim.Native.Char.{code}
use node_box.Prelude.{
  String, Bool, true, false, not, ◌||◌, List, [], ◌∷◌, map, ◌==◌, is_nil, select, if◌then◌else◌,
}
use node_box.Node.{Node, tag, set_tag}
use node_box.TextUtil.{RuneClass, concat, trim_space, is_emoji_rune, contains_ignore_emoji}
use node_box.Subscription.Emoji.{EmojiTable, UpperCase, for_tag}
use node_box.Subscription.Removal.{compile_removals, remove_matches}

-- `if tag := n.Tag(); tag != "" { n.SetTag(edit(tag)) }`
unfoldable pub edit_tag : (String → String) → Node → Node
edit_tag edit n = if tag n == "" then n else set_tag (edit (tag n)) n

-- fmt.Sprintf("[%s] %s", subName, tag)
unfoldable pub prefixed : String → String → String
unfolding concat
prefixed sub_name tag = concat "[" (concat sub_name (concat "] " tag))

unfoldable pub prefix_tags : List Node → String → List Node
unfolding edit_tag prefixed
prefix_tags nodes sub_name = map (edit_tag (prefixed sub_name)) nodes

unfoldable pub remove_keywords : List Node → List String → List Node
unfolding edit_tag compile_removals remove_matches
remove_keywords nodes keywords =
    let matchers = compile_removals keywords in
    if is_nil matchers then nodes else map (edit_tag (remove_matches matchers)) nodes

module _ (so : RuneClass) where
  unfoldable pub matches_any : String → List String → Bool
  unfolding contains_ignore_emoji
  matches_any tag [] = false
  matches_any tag (kw ∷ kws) = contains_ignore_emoji so tag kw || matches_any tag kws

  unfoldable pub keeps : List String → Node → Bool
  unfolding matches_any
  keeps keywords n = tag n == "" || not (matches_any (tag n) keywords)

  unfoldable pub drop_excluded : List Node → List String → List Node
  unfolding keeps
  drop_excluded nodes keywords = if is_nil keywords then nodes else select (keeps keywords) nodes

  -- strings.Map drops a rune that maps to -1.
  unfoldable pub remove_emoji_runes : String → String
  unfolding is_emoji_rune
  remove_emoji_runes String.[] = String.[]
  remove_emoji_runes (String.◌∷◌ c s) =
      let rest = remove_emoji_runes s in
      if is_emoji_rune so (code c) then rest else String.◌∷◌ c rest

  unfoldable pub clean_tag : String → String
  unfolding remove_emoji_runes
  clean_tag tag = trim_space (remove_emoji_runes tag)

  unfoldable pub strip_tag_emoji : List Node → List Node
  unfolding edit_tag clean_tag
  strip_tag_emoji nodes = map (edit_tag clean_tag) nodes

  unfoldable pub marked : UpperCase → EmojiTable → String → String
  unfolding clean_tag for_tag
  marked upper table tag = concat (for_tag upper table (clean_tag tag)) (concat " " (clean_tag tag))

  unfoldable pub assign_tag_emoji : UpperCase → List Node → EmojiTable → List Node
  unfolding edit_tag marked
  assign_tag_emoji upper nodes table = map (edit_tag (marked upper table)) nodes
