-- ===== src/Samples/Sources.antt =====
-- A bootstrap file, a GitHub source, one GET with retries, and an archive.
use node_box.Prelude.{
  ◌≡◌, ◌↔◌, refl, inl, true, false, none, some, List, [], ◌∷◌, ok, err, pos, eqb, if◌then◌else◌,
}
use node_box.Fetch.{Client, Network, Request, Response, Reply, Cause, get}
use node_box.Fetch.Limits.{cap_of, IsSuccess, Whole, sent, get_iff}
use node_box.Fetch.Retry.{Context, get_with_retry, default_retry}
use node_box.Model.Bootstrap.{Bootstrap, SourceConfig, apply_defaults, load}
use node_box.TextUtil.{concat}
use node_box.Model.Bootstrap.Filled.{IsFilled}
use node_box.Model.Bootstrap.Valid.{IsBootstrap, load_iff}
use node_box.Source.Archive.{Entry, Host, dir, reg, extract_tar_gz, ExtractError}
use node_box.Source.Archive.Bounded.{WithinLimits, extract_tar_gz-WithinLimits}
use node_box.Source.Archive.Contained.{Contained, extract_tar_gz-Contained}
use node_box.Source.GitHub.{GitHub, Access, resolve}
use node_box.Source.GitHub.Cached.{Answered, resolve-Answered}

abbrev from_github : SourceConfig
from_github = record {
  type = "github";
  repo = "o/r";
  branch = "";
  token_env = "TOKEN";
  poll_interval = pos 0;
  dir = "";
}

abbrev file : Bootstrap
file = record {
  root = "";
  log_level = "";
  update_timeout = pos 0;
  source = some from_github;
  server = none;
  proxy = none;
}

load_iff_example : (load "/etc" file ≡ ok (apply_defaults "/etc" file)) ↔ (
    (apply_defaults "/etc" file ≡ apply_defaults "/etc" file)
    × IsFilled file (apply_defaults "/etc" file)
    × IsBootstrap (apply_defaults "/etc" file))
load_iff_example = load_iff "/etc" file (apply_defaults "/etc" file)

-- The network fails once, then answers with two bytes.
abbrev reply : Reply
reply = record { status = 200; reason = "OK"; etag = "e"; body = 1 ∷ 2 ∷ []; broken = none }

abbrev flaky : Network
flaky = record {
  takes_url = λ url. true;
  send = λ n r. if eqb n 1 then err Cause.other else ok reply;
}

abbrev client : Client
client = record { user_agent = "node-box"; max_bytes = 10 }

abbrev asked : Request
asked = record { url = "u"; user_agent = ""; headers = []; etag = ""; max_bytes = 2 }

abbrev got : Response
got = record { body = 1 ∷ 2 ∷ []; etag = "e" }

get_iff_example : (get client flaky 2 asked ≡ ok got) ↔ (
    (flaky.takes_url "u" ≡ true)
    × ((r : Reply) × (flaky.send 2 (sent client asked) ≡ ok r)
        × IsSuccess r.status
        × Whole (cap_of 2 10) r got))
get_iff_example = get_iff client flaky 2 asked got

abbrev patient : Context
patient n = none

retried :
    get_with_retry client flaky patient asked default_retry
    ≡ record { waits = 2_000_000_000 ∷ []; calls = 2; outcome = ok got }
unfolding get_with_retry
retried = refl

abbrev willing : Host
willing = record { makes_dir = λ target. true; writes = λ target. true }

abbrev entries : List Entry
entries =
    record { name = "root/"; kind = dir }
    ∷ record { name = "root/a/b.json"; kind = reg (1 ∷ []) false }
    ∷ record { name = "root/../../x"; kind = reg (1 ∷ []) false }
    ∷ []

extract_tar_gz-WithinLimits_example :
    WithinLimits (extract_tar_gz willing "/d" (some (true, entries)))
extract_tar_gz-WithinLimits_example =
    extract_tar_gz-WithinLimits willing "/d" (some (true, entries))

extract_tar_gz-Contained_example :
    Contained willing "/d" (extract_tar_gz willing "/d" (some (true, entries))).state
extract_tar_gz-Contained_example = extract_tar_gz-Contained willing "/d" (some (true, entries))

-- The traversal is refused, after the file before it was written.
traversal : extract_tar_gz willing "/d" (some (true, entries)) ≡ record {
  state = record {
    dirs = "/d/a" ∷ [];
    written = ("/d/a/b.json", 1 ∷ []) ∷ [];
    files = 1;
    total_bytes = 1;
  };
  outcome = err (ExtractError.escapes "root/../../x");
}
unfolding extract_tar_gz concat
traversal = refl

abbrev access : Access
access = record {
  client = client;
  net = flaky;
  ctx = patient;
  text = λ bytes. "abc123";
  unpack = λ bytes. some (true, entries);
}

abbrev fresh : GitHub
fresh = record {
  owner = "o";
  repo = "r";
  branch = "main";
  token = "t";
  api_base = "https://api.github.com";
  etag = "";
  cached_sha = "";
}

resolve-Answered_example : Answered (resolve access fresh)
resolve-Answered_example = resolve-Answered access fresh (inl (refl, refl))
