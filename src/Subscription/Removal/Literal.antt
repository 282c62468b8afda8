-- ===== src/Subscription/Removal/Literal.antt =====
-- compileRemovals of internal/subscription/transform.go: a keyword without wildcards.
use node_box.Prelude.{
  ℕ, zero, suc, ◌-◌, String, ◌≡◌, ◌≢◌, refl, ap, false, none, some, arith, if◌then◌else◌,
  Bool-cases, inl, inr,
}
use node_box.TextUtil.{has_prefix, concat}
use node_box.TextUtil.Replace.{size, replace_from, replace_all}
use node_box.Subscription.Removal.{
  regexp_item, glob_to_regexp, match_length, delete_from, has_wildcard, glob, literal, remove_match,
}

match_length-literal :
    (kw s : String)
    → has_wildcard kw ≡ false
    → match_length (glob_to_regexp kw) s ≡ (if has_prefix s kw then some (size kw) else none)
unfolding match_length glob_to_regexp regexp_item has_prefix size has_wildcard
match_length-literal String.[] s h = ground arith
match_length-literal (String.◌∷◌ c kw) String.[] h = ground arith
match_length-literal (String.◌∷◌ c kw) (String.◌∷◌ d s) h =
    ground (arith, match_length-literal kw s)

delete_from-literal :
    (k : ℕ) (kw s : String)
    → has_wildcard kw ≡ false
    → kw ≢ ""
    → delete_from k (glob_to_regexp kw) s ≡ replace_from k s kw ""
unfolding delete_from replace_from concat
delete_from-literal k kw String.[] h n = ground arith
delete_from-literal (suc k) kw (String.◌∷◌ c s) h n = delete_from-literal k kw s h n
delete_from-literal zero String.[] (String.◌∷◌ c s) h n = absurd (n refl)
delete_from-literal zero (String.◌∷◌ d kw) (String.◌∷◌ c s) h n =
    rw (match_length-literal (String.◌∷◌ d kw) (String.◌∷◌ c s) h)
      (elim (Bool-cases (has_prefix (String.◌∷◌ c s) (String.◌∷◌ d kw))) [
        | inl e ↦
            let behind : suc (size kw) - 1 ≡ size kw = omega arith in
            rw (e, behind) (delete_from-literal (size kw) (String.◌∷◌ d kw) s h n)
        | inr e ↦ rw e (ap (String.◌∷◌ c) (delete_from-literal 0 (String.◌∷◌ d kw) s h n))
      ])

-- A keyword that is not empty and has no wildcard deletes the same from a tag as a glob and as a
-- literal text.
pub glob-eq-literal :
    (kw tag : String)
    → has_wildcard kw ≡ false
    → kw ≢ ""
    → remove_match tag (glob (glob_to_regexp kw)) ≡ remove_match tag (literal kw)
unfolding remove_match replace_all
glob-eq-literal kw tag h n = delete_from-literal 0 kw tag h n
