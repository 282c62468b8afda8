-- ===== src/Samples/Model.antt =====
-- internal/model on a small configuration, and internal/textutil on small texts.
use node_box.Prelude.{◌≡◌, ◌↔◌, refl, ok, err, pos, lookup, insert, some, has}
use node_box.Model.Paths.{check_repo_rel_path, escapes}
use node_box.Model.Paths.Inside.{IsRepoPath, check_repo_rel_path_iff}
use node_box.Model.Validate.{validate, every_unused, has_bracket}
use node_box.Model.Validate.Spec.{IsValid}
use node_box.Model.Validate.Exact.{validate_iff}
use node_box.TextUtil.{strip_emoji, contains_ignore_emoji}
use node_box.Prelude.{false}
use node_box.Samples.Pipeline.{config, no_symbols}

inner_climb : check_repo_rel_path "a/../b/./c.json" ≡ ok tt
unfolding check_repo_rel_path
inner_climb = refl

outer_climb : check_repo_rel_path "a/../../b" ≡ err escapes
unfolding check_repo_rel_path
outer_climb = refl

config_is_valid : validate config ≡ ok tt
unfolding validate lookup insert has has_bracket check_repo_rel_path
config_is_valid = refl

hourly_takes_no_period :
    validate (record config { update_schedule = some (record { type = "hourly"; every = pos 5 }) })
    ≡ err every_unused
unfolding validate lookup insert has has_bracket check_repo_rel_path
hourly_takes_no_period = refl

check_repo_rel_path_iff_example : (check_repo_rel_path "a/../../b" ≡ ok tt) ↔ IsRepoPath "a/../../b"
check_repo_rel_path_iff_example = check_repo_rel_path_iff "a/../../b"

validate_iff_example : (validate config ≡ ok tt) ↔ IsValid config
validate_iff_example = validate_iff config

-- The space after an emoji that follows a letter is lost.
emoji_takes_the_space : strip_emoji no_symbols "A🇺🇸 B" ≡ "AB"
unfolding strip_emoji
emoji_takes_the_space = refl

keyword_is_missed : contains_ignore_emoji no_symbols "A🇺🇸 B" "A B" ≡ false
unfolding contains_ignore_emoji
keyword_is_missed = refl
