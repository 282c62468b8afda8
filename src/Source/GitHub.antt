-- ===== src/Source/GitHub.antt =====
-- The GitHub source of internal/source/github.go: the conditional request for the branch's commit,
-- with its cache, and the snapshot of a commit. How the runes of a body are read, the gzip and tar
-- readers and the network are parameters; the mutex guards single reads and writes of the cache.
pub mod Cached
pub mod Described
use node_box.Prelude.{
  ℕ, String, Bool, true, false, not, ◌||◌, Option, none, some, List, [], ◌∷◌, Dict, ◌==◌,
  if◌then◌else◌, Result, ok, err,
}
use node_box.Fetch.{Bytes, Client, Network, Request, Response, GetError, not_modified}
use node_box.Fetch.Retry.{
  Context, RetryError, interrupted, final, gave_up, get_with_retry, default_retry,
}
use node_box.Source.Archive.{
  Entry, Host, ExtractError, Extraction, Extracted, extract_tar_gz, start,
}
use node_box.Source.Store.{valid_ref}
use node_box.TextUtil.{concat, trim_space}
use node_box.TextUtil.Replace.{cut}

abbrev pub max_tarball_bytes : ℕ
max_tarball_bytes = 0x2000000

pub record GitHub : Type 0 where
  pub owner : String
  pub repo : String
  pub branch : String
  pub token : String
  pub api_base : String
  pub etag : String
  pub cached_sha : String

-- What the source is given: the client, the network, the context, and the readers.
pub record Access : Type 0 where
  pub client : Client
  pub net : Network
  pub ctx : Context
  pub text : Bytes → String
  pub unpack : Bytes → Option (Bool × List Entry)

unfoldable pub from_parts : String → String → Option (String × String) → Option GitHub
from_parts branch token none = none
from_parts branch token (some (owner, name)) =
    if owner == "" || name == ""
    then none
    else some (record {
      owner = owner;
      repo = name;
      branch = if branch == "" then "main" else branch;
      token = token;
      api_base = "https://api.github.com";
      etag = "";
      cached_sha = "";
    })

-- NewGitHub
unfoldable pub new_github : String → String → String → Option GitHub
unfolding from_parts cut
new_github repo branch token = from_parts branch token (cut repo "/")

unfoldable pub describe : GitHub → String
unfolding concat
describe g = concat "github:" (concat g.owner (concat "/" (concat g.repo (concat "@" g.branch))))

unfoldable pub headers : GitHub → String → Dict String
unfolding concat
headers g accept =
    let common = ("Accept", accept) ∷ ("X-GitHub-Api-Version", "2022-11-28") ∷ [] in
    if g.token == "" then common else ("Authorization", concat "Bearer " g.token) ∷ common

unfoldable pub repo_url : GitHub → String → String
unfolding concat
repo_url g rest =
    concat g.api_base (concat "/repos/" (concat g.owner (concat "/" (concat g.repo rest))))

-- The request for the branch's commit, with an ETag to compare with.
unfoldable pub commit_request : GitHub → String → Request
unfolding repo_url headers concat
commit_request g etag = record {
  url = repo_url g (concat "/commits/" g.branch);
  user_agent = "";
  headers = headers g "application/vnd.github.sha";
  etag = etag;
  max_bytes = 4096;
}

pub data ResolveError : Type 0 where
  request : RetryError → ResolveError
  unexpected_sha : String → ResolveError

-- A call that may write the cache.
pub record Resolved : Type 0 where
  pub source : GitHub
  pub outcome : Result ResolveError String

unfoldable pub remember : GitHub → String → String → GitHub
remember g etag sha = record g { etag = etag; cached_sha = sha }

-- the sha of a response: checked, then cached with its ETag
unfoldable pub accept_sha : GitHub → String → String → Resolved
unfolding valid_ref remember
accept_sha g etag sha =
    if not (valid_ref sha)
    then record { source = g; outcome = err (unexpected_sha sha) }
    else record { source = remember g etag sha; outcome = ok sha }

unfoldable pub accept : (Bytes → String) → GitHub → Result RetryError Response → Resolved
unfolding accept_sha trim_space
accept text g (err e) = record { source = g; outcome = err (request e) }
accept text g (ok resp) = accept_sha g resp.etag (trim_space (text resp.body))

-- errors.Is(err, fetch.ErrNotModified)
abbrev pub is_unchanged : GetError → Bool
is_unchanged not_modified = true
is_unchanged _ = false

abbrev pub answers_304 : Result RetryError Response → Bool
answers_304 (ok resp) = false
answers_304 (err (interrupted cause)) = false
answers_304 (err (final e)) = is_unchanged e
answers_304 (err (gave_up n e)) = is_unchanged e

unfoldable pub resolve_unconditional : Access → GitHub → Resolved
unfolding accept get_with_retry commit_request
resolve_unconditional a g =
    accept a.text g
      (get_with_retry a.client a.net a.ctx (commit_request g "") default_retry).outcome

-- what Resolve makes of the conditional request's answer
unfoldable pub on_answer : Access → GitHub → Result RetryError Response → Resolved
unfolding resolve_unconditional accept
on_answer a g answer =
    if answers_304 answer
    then (if g.cached_sha == ""
        then resolve_unconditional a g
        else record { source = g; outcome = ok g.cached_sha })
    else accept a.text g answer

unfoldable pub resolve : Access → GitHub → Resolved
unfolding on_answer get_with_retry commit_request
resolve a g =
    on_answer a g
      (get_with_retry a.client a.net a.ctx (commit_request g g.etag) default_retry).outcome

unfoldable pub tarball_request : GitHub → String → Request
unfolding repo_url headers concat
tarball_request g ref = record {
  url = repo_url g (concat "/tarball/" ref);
  user_agent = "";
  headers = headers g "application/vnd.github+json";
  etag = "";
  max_bytes = max_tarball_bytes;
}

pub data MaterializeError : Type 0 where
  invalid_ref : String → MaterializeError
  download : RetryError → MaterializeError
  extract : ExtractError → MaterializeError

-- What was created in the destination, and how the call ends.
pub record Materialized : Type 0 where
  pub state : Extraction
  pub outcome : Result MaterializeError (Unit {0})

abbrev pub wrap_extract : Result ExtractError (Unit {0}) → Result MaterializeError (Unit {0})
wrap_extract (ok _) = ok tt
wrap_extract (err e) = err (extract e)

unfoldable pub unpack_response : Access → Host → String → Result RetryError Response → Materialized
unfolding extract_tar_gz
unpack_response a host dest (err e) = record { state = start; outcome = err (download e) }
unpack_response a host dest (ok resp) =
    let run = extract_tar_gz host dest (a.unpack resp.body) in
    record { state = run.state; outcome = wrap_extract run.outcome }

unfoldable pub materialize : Access → Host → GitHub → String → String → Materialized
unfolding unpack_response get_with_retry tarball_request valid_ref
materialize a host g ref dest =
    if not (valid_ref ref)
    then record { state = start; outcome = err (invalid_ref ref) }
    else unpack_response a host dest
        (get_with_retry a.client a.net a.ctx (tarball_request g ref) default_retry).outcome
