-- ===== src/Subscription/Emoji.antt =====
-- The region emoji of internal/subscription/transform.go: the table, its keywords and the search for
-- one of them as a word. A rune is a whole character, so an index of bytes becomes the texts around
-- it.
pub mod Words
pub mod Table
use Prim.Native.Char.{Char, code}
use node_box.Prelude.{
  ℕ, String, Bool, true, false, not, ◌&&◌, ◌||◌, Option, none, some, List, [], ◌∷◌, ◌++◌, map, ◌==◌,
  if◌then◌else◌,
}
use node_box.TextUtil.{between}
use node_box.TextUtil.Replace.{cut}
use node_box.Model

pub record EmojiRule : Type 0 where
  pub emoji : String
  pub keywords : List String

abbrev pub EmojiTable : Type 0
EmojiTable = List EmojiRule

-- unicode.ToUpper, of the Unicode version of the Go library
abbrev pub UpperCase : Type 0
UpperCase = Char → Char

unfoldable pub is_cjk_rune : ℕ → Bool
is_cjk_rune r = between 0x4E00 0x9FFF r

unfoldable pub is_ascii_letter : ℕ → Bool
is_ascii_letter r = between 0x41 0x5A r || between 0x61 0x7A r

unfoldable pub is_boundary : Bool → ℕ → Bool
unfolding is_cjk_rune is_ascii_letter
is_boundary cjk r = if cjk then not (is_cjk_rune r) else not (is_ascii_letter r)

-- utf8.DecodeRuneInString, RuneError for an empty text
unfoldable pub first_rune : String → ℕ
first_rune String.[] = 0xFFFD
first_rune (String.◌∷◌ c s) = code c

-- The last rune of a text that follows the rune given: utf8.DecodeLastRuneInString.
unfoldable pub last_rune : ℕ → String → ℕ
last_rune r String.[] = r
last_rune r (String.◌∷◌ c s) = last_rune (code c) s

-- the test of the rune before, made where there is one
unfoldable pub starts_word : Bool → String → Bool
unfolding is_boundary last_rune
starts_word cjk String.[] = true
starts_word cjk (String.◌∷◌ c s) = is_boundary cjk (last_rune (code c) s)

-- the test of the rune behind, made where there is one
unfoldable pub ends_word : Bool → String → Bool
unfolding is_boundary
ends_word cjk String.[] = true
ends_word cjk (String.◌∷◌ c s) = is_boundary cjk (code c)

unfoldable pub word_around : Bool → Option (String × String) → Bool
unfolding starts_word ends_word
word_around cjk none = false
word_around cjk (some (before, after)) = starts_word cjk before && ends_word cjk after

unfoldable pub contains_word : String → String → Bool
unfolding word_around first_rune cut
contains_word s keyword = word_around (is_cjk_rune (first_rune keyword)) (cut s keyword)

abbrev pub unknown_region_emoji : String
unknown_region_emoji = "🇺🇳"

abbrev rule : String → List String → EmojiRule
rule emoji keywords = record { emoji = emoji; keywords = keywords }

unfoldable pub builtin_emoji_rules : EmojiTable
builtin_emoji_rules =
    rule "🇦🇷" ("阿根廷" ∷ "AR" ∷ "Argentina" ∷ [])
    ∷ rule "🇦🇺" ("澳大利亚" ∷ "澳洲" ∷ "AU" ∷ "Australia" ∷ [])
    ∷ rule "🇦🇹" ("奥地利" ∷ "AT" ∷ "Austria" ∷ [])
    ∷ rule "🇧🇩" ("孟加拉" ∷ "BD" ∷ "Bangladesh" ∷ [])
    ∷ rule "🇧🇪" ("比利时" ∷ "BE" ∷ "Belgium" ∷ [])
    ∷ rule "🇧🇷" ("巴西" ∷ "BR" ∷ "Brazil" ∷ [])
    ∷ rule "🇨🇦" ("加拿大" ∷ "CA" ∷ "Canada" ∷ [])
    ∷ rule "🇨🇱" ("智利" ∷ "CL" ∷ "Chile" ∷ [])
    ∷ rule "🇨🇴" ("哥伦比亚" ∷ "CO" ∷ "Colombia" ∷ [])
    ∷ rule "🇨🇿" ("捷克" ∷ "CZ" ∷ "Czech" ∷ [])
    ∷ rule "🇩🇰" ("丹麦" ∷ "DK" ∷ "Denmark" ∷ [])
    ∷ rule "🇪🇬" ("埃及" ∷ "EG" ∷ "Egypt" ∷ [])
    ∷ rule "🇫🇮" ("芬兰" ∷ "FI" ∷ "Finland" ∷ [])
    ∷ rule "🇫🇷" ("法国" ∷ "FR" ∷ "France" ∷ [])
    ∷ rule "🇩🇪" ("德国" ∷ "DE" ∷ "Germany" ∷ [])
    ∷ rule "🇭🇰" ("香港" ∷ "HK" ∷ "Hong Kong" ∷ "HongKong" ∷ [])
    ∷ rule "🇭🇺" ("匈牙利" ∷ "HU" ∷ "Hungary" ∷ [])
    ∷ rule "🇮🇸" ("冰岛" ∷ "IS" ∷ "Iceland" ∷ [])
    ∷ rule "🇮🇳" ("印度" ∷ "IN" ∷ "India" ∷ [])
    ∷ rule "🇮🇩" ("印尼" ∷ "印度尼西亚" ∷ "ID" ∷ "Indonesia" ∷ [])
    ∷ rule "🇮🇪" ("爱尔兰" ∷ "IE" ∷ "Ireland" ∷ [])
    ∷ rule "🇮🇱" ("以色列" ∷ "IL" ∷ "Israel" ∷ [])
    ∷ rule "🇮🇹" ("意大利" ∷ "IT" ∷ "Italy" ∷ [])
    ∷ rule "🇯🇵" ("日本" ∷ "JP" ∷ "Japan" ∷ [])
    ∷ rule "🇰🇿" ("哈萨克斯坦" ∷ "KZ" ∷ "Kazakhstan" ∷ [])
    ∷ rule "🇰🇪" ("肯尼亚" ∷ "KE" ∷ "Kenya" ∷ [])
    ∷ rule "🇰🇷" ("韩国" ∷ "KR" ∷ "Korea" ∷ [])
    ∷ rule "🇲🇾" ("马来西亚" ∷ "MY" ∷ "大马" ∷ "Malaysia" ∷ [])
    ∷ rule "🇲🇽" ("墨西哥" ∷ "MX" ∷ "Mexico" ∷ [])
    ∷ rule "🇳🇱" ("荷兰" ∷ "NL" ∷ "Netherlands" ∷ [])
    ∷ rule "🇳🇿" ("新西兰" ∷ "NZ" ∷ "New Zealand" ∷ [])
    ∷ rule "🇳🇬" ("尼日利亚" ∷ "NG" ∷ "Nigeria" ∷ [])
    ∷ rule "🇳🇴" ("挪威" ∷ "NO" ∷ "Norway" ∷ [])
    ∷ rule "🇵🇰" ("巴基斯坦" ∷ "PK" ∷ "Pakistan" ∷ [])
    ∷ rule "🇵🇭" ("菲律宾" ∷ "PH" ∷ "Philippines" ∷ [])
    ∷ rule "🇵🇱" ("波兰" ∷ "PL" ∷ "Poland" ∷ [])
    ∷ rule "🇵🇹" ("葡萄牙" ∷ "PT" ∷ "Portugal" ∷ [])
    ∷ rule "🇷🇴" ("罗马尼亚" ∷ "RO" ∷ "Romania" ∷ [])
    ∷ rule "🇷🇺" ("俄罗斯" ∷ "RU" ∷ "Russia" ∷ [])
    ∷ rule "🇸🇦" ("沙特" ∷ "SA" ∷ "Saudi" ∷ [])
    ∷ rule "🇸🇬" ("新加坡" ∷ "SG" ∷ "Singapore" ∷ [])
    ∷ rule "🇿🇦" ("南非" ∷ "ZA" ∷ "South Africa" ∷ [])
    ∷ rule "🇪🇸" ("西班牙" ∷ "ES" ∷ "Spain" ∷ [])
    ∷ rule "🇸🇪" ("瑞典" ∷ "SE" ∷ "Sweden" ∷ [])
    ∷ rule "🇨🇭" ("瑞士" ∷ "CH" ∷ "Switzerland" ∷ [])
    ∷ rule "🇹🇼" ("台湾" ∷ "TW" ∷ "Taiwan" ∷ [])
    ∷ rule "🇹🇭" ("泰国" ∷ "TH" ∷ "Thailand" ∷ [])
    ∷ rule "🇹🇷" ("土耳其" ∷ "TR" ∷ "Turkey" ∷ "Türkiye" ∷ [])
    ∷ rule "🇦🇪" ("阿联酋" ∷ "AE" ∷ "UAE" ∷ "Dubai" ∷ "迪拜" ∷ [])
    ∷ rule "🇺🇦" ("乌克兰" ∷ "UA" ∷ "Ukraine" ∷ [])
    ∷ rule "🇬🇧" ("英国" ∷ "UK" ∷ "GB" ∷ "United Kingdom" ∷ "Britain" ∷ [])
    ∷ rule "🇺🇸" ("美国" ∷ "US" ∷ "USA" ∷ "United States" ∷ "America" ∷ [])
    ∷ rule "🇻🇳" ("越南" ∷ "VN" ∷ "Vietnam" ∷ [])
    ∷ []

unfoldable pub table_rule : Model.EmojiRule → EmojiRule
table_rule o = record { emoji = o.emoji; keywords = o.keywords }

unfoldable pub new_emoji_table : List Model.EmojiRule → EmojiTable
unfolding table_rule builtin_emoji_rules
new_emoji_table overrides = map table_rule overrides ++ builtin_emoji_rules

module _ (upper : UpperCase) where
  -- strings.ToUpper
  unfoldable pub to_upper : String → String
  to_upper String.[] = String.[]
  to_upper (String.◌∷◌ c s) = String.◌∷◌ (upper c) (to_upper s)

  unfoldable pub keyword_hits : String → String → Bool
  unfolding to_upper contains_word
  keyword_hits upper_tag kw = not (kw == "") && contains_word upper_tag (to_upper kw)

  -- the inner loop of forTag
  unfoldable pub any_keyword : String → List String → Bool
  unfolding keyword_hits
  any_keyword upper_tag [] = false
  any_keyword upper_tag (kw ∷ kws) = keyword_hits upper_tag kw || any_keyword upper_tag kws

  -- the loop of forTag
  unfoldable pub scan_table : EmojiTable → String → String
  unfolding any_keyword
  scan_table [] upper_tag = unknown_region_emoji
  scan_table (r ∷ rs) upper_tag =
      let later = scan_table rs upper_tag in
      if any_keyword upper_tag r.keywords then r.emoji else later

  unfoldable pub for_tag : EmojiTable → String → String
  unfolding scan_table
  for_tag table tag = scan_table table (to_upper tag)
