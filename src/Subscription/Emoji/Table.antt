-- ===== src/Subscription/Emoji/Table.antt =====
-- forTag of internal/subscription/transform.go: which rule of the table names a node's region.
use node_box.Prelude.{String, ◌≡◌, ◌≢◌, List, ◌∷◌, ◌++◌, In, All}
use node_box.Model
use node_box.Subscription.Emoji.{EmojiRule, EmojiTable, UpperCase, to_upper}
use node_box.Subscription.Emoji.Words.{StandsAsWord}

module _ (upper : UpperCase) where
  -- The first occurrence of one of the keywords in the tag, in capitals, stands as a word.
  abbrev pub Hits : String → List String → Type 0
  Hits tag keywords =
      (kw : String) × In kw keywords × (kw ≢ "") × StandsAsWord tag (to_upper upper kw)

  -- No keyword of the rule stands in the tag.
  abbrev pub Misses : String → EmojiRule → Type 0
  Misses tag r = ¬ Hits tag r.keywords

  -- The first rule with a keyword in the tag gives the emoji.
  abbrev pub FirstRule : String → EmojiTable → String → Type 0
  FirstRule tag table emoji =
      (before : EmojiTable) × (r : EmojiRule) × (after : EmojiTable) × (table ≡ before ++ r ∷ after)
      × All (Misses tag) before
      × Hits tag r.keywords
      × (emoji ≡ r.emoji)
