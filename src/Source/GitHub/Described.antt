-- ===== src/Source/GitHub/Described.antt =====
-- Describe of internal/model/bootstrap.go and of internal/source/github.go: one text for a source.
use node_box.Prelude.{String, ◌≡◌, ◌≢◌, refl, sym, ap, some, eq_iff, ne→eq_false, ◌∙◌}
use node_box.Model.Bootstrap
use node_box.Model.Bootstrap.{SourceConfig}
use node_box.Model.Bootstrap.Checks.{IsGitHub}
use node_box.Source.GitHub.{GitHub, from_parts, new_github, describe}
use node_box.Subscription.Naming.Prefixed.{concat_assoc}
use node_box.TextUtil.{concat}
use node_box.TextUtil.Replace.Cut.{cut_iff}

abbrev source_of : String → String → String → String → GitHub
source_of owner name branch token = record {
  owner = owner;
  repo = name;
  branch = branch;
  token = token;
  api_base = "https://api.github.com";
  etag = "";
  cached_sha = "";
}

from_parts-some :
    (branch token owner name : String)
    → owner ≢ ""
    → name ≢ ""
    → branch ≢ ""
    → from_parts branch token (some (owner, name)) ≡ some (source_of owner name branch token)
unfolding from_parts
from_parts-some branch token owner name p q b =
    rw (ne→eq_false owner "" p, ne→eq_false name "" q, ne→eq_false branch "" b) refl

github_text :
    (s : SourceConfig)
    → s.type ≡ "github"
    → Bootstrap.describe s ≡ concat "github:" (concat s.repo (concat "@" s.branch))
unfolding Bootstrap.describe
github_text s t = rw ((eq_iff s.type "github").1 t) refl

joined :
    (owner name rest : String)
    → concat (concat owner (concat "/" name)) rest ≡ concat owner (concat "/" (concat name rest))
joined owner name rest =
    concat_assoc owner (concat "/" name) rest ∙ ap (concat owner) (concat_assoc "/" name rest)

-- For a valid GitHub configuration with a branch NewGitHub makes a source, and the Describe of
-- the source and that of the configuration give the same text.
pub new_github-describe :
    (s : SourceConfig) (token : String)
    → s.type ≡ "github"
    → IsGitHub s
    → s.branch ≢ ""
    → (g : GitHub) × (new_github s.repo s.branch token ≡ some g)
      × (describe g ≡ Bootstrap.describe s)
unfolding new_github describe
new_github-describe s token t (_, ((owner, name, c, p, q, _), _)) b = (
  source_of owner name s.branch token,
  ap (from_parts s.branch token) ((cut_iff s.repo "/" owner name).1 c)
      ∙ from_parts-some s.branch token owner name p q b,
  sym (
      github_text s t
      ∙ ap (λ y. concat "github:" (concat y (concat "@" s.branch))) c.0
      ∙ ap (concat "github:") (joined owner name (concat "@" s.branch))),
)
