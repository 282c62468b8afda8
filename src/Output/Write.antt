-- ===== src/Output/Write.antt =====
-- Write of internal/output/write.go, over a disk that holds a text under each path. Whether the
-- host lets a file be read or replaced is a parameter, and so is the hash. A replacement that fails
-- leaves the old content (fsx.WriteAtomic).
pub mod Committed
use node_box.Prelude.{
  ℕ, String, Bool, true, false, not, ◌&&◌, Option, none, some, List, [], ◌∷◌, ◌++◌, ◌==◌,
  if◌then◌else◌, Dict, lookup, insert, Names,
}
use node_box.Build.Generate.{File}

abbrev pub Disk : Type 0
Disk = Dict String

pub record Host : Type 0 where
  pub unreadable : String → Bool
  pub refuses : String → Bool

pub record Results : Type 0 where
  pub written : Names
  pub skipped : Names

-- What Write leaves and returns; `failed` names the file whose write failed.
pub record Outcome : Type 0 where
  pub disk : Disk
  pub results : Results
  pub hashes : Dict String
  pub failed : Option String

holds_content : String → Option String → Bool
holds_content content none = false
holds_content content (some existing) = existing == content

unfoldable pub matches_disk : Host → Disk → File → Bool
unfolding holds_content
matches_disk host disk f =
    not (host.unreadable f.path) && holds_content f.content (lookup f.path disk)

module _ (host : Host) (hash : String → String) (force : Bool) where
  -- the body of the loop, for a file that is not skipped
  write_file : Outcome → File → Outcome
  write_file o f = if host.refuses f.path then record o { failed = some f.name } else record o {
    disk = insert f.path f.content o.disk;
    results = record o.results { written = o.results.written ++ f.path ∷ [] };
  }

  skip_file : Outcome → File → Outcome
  skip_file o f = record o {
    results = record o.results { skipped = o.results.skipped ++ f.path ∷ [] };
  }

  unfoldable pub write_one : Outcome → File → Outcome
  unfolding write_file skip_file matches_disk
  write_one o f =
      let recorded = record o { hashes = insert f.path (hash f.content) o.hashes } in
      if not force && matches_disk host o.disk f
      then skip_file recorded f
      else write_file recorded f

  stop_or : Option String → Outcome → Outcome → Outcome
  stop_or none o next = next
  stop_or (some _) o next = o

  unfoldable pub write_loop : Outcome → List File → Outcome
  unfolding write_one stop_or
  write_loop o [] = o
  write_loop o (f ∷ fs) =
      let next = write_loop (write_one o f) fs in
      stop_or (write_one o f).failed (write_one o f) next

  unfoldable pub write : Disk → List File → Outcome
  unfolding write_loop
  write disk files =
      write_loop
        (record {
          disk = disk;
          results = record { written = []; skipped = [] };
          hashes = [];
          failed = none;
        })
        files
