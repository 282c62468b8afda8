-- ===== src/Source/Archive.antt =====
-- extractTarGz of internal/source/github.go and the path checks that it makes. The archive is what
-- tar.Reader yields: its entries, and whether the stream ends with an error.
pub mod Bounded
pub mod Contained
use Prim.Native.Char.{Char, code, char}
use node_box.Prelude.{
  ℕ, zero, suc, ◌+◌, ◌-◌, String, Bool, true, false, not, ◌&&◌, ◌||◌, Option, none, some, List, [],
  ◌∷◌, ◌++◌, ◌==◌, eqb, ltb, leb, length, if◌then◌else◌, Result, ok, err,
}
use node_box.Fetch.{Bytes, take_bytes}
use node_box.Model.Paths.{clean, leads_out}
use node_box.Output.Target.{join}
use node_box.Output.Dirs.{dir_of}
use node_box.TextUtil.{has_prefix}
use node_box.TextUtil.Replace.{cut, cut_prefix, replace_all}

abbrev pub max_archive_bytes : ℕ
max_archive_bytes = 0x4000000

abbrev pub max_archive_files : ℕ
max_archive_files = 5000

-- What follows the first slash, if anything does.
abbrev pub behind_root : Option (String × String) → Option String
behind_root none = none
behind_root (some (root, rest)) = if rest == "" then none else some rest

abbrev pub trimmed : String → Option String → String
trimmed name none = name
trimmed name (some rest) = rest

-- stripRoot
unfoldable pub strip_root : String → Option String
unfolding replace_all cut_prefix has_prefix cut
strip_root name =
    let slashes = replace_all name "\\" "/" in
    let relative = trimmed slashes (cut_prefix slashes "./") in
    if has_prefix relative "/" then none else behind_root (cut relative "/")

-- safeRelPath: the cleaned path is ".." or begins with "../" if its first component is "..".
unfoldable pub safe_rel_path : String → Bool
unfolding has_prefix clean leads_out
safe_rel_path rel = not (rel == "" || has_prefix rel "/") && not (leads_out (clean rel))

-- The content may break off, after the bytes given.
pub data Kind : Type 0 where
  dir : Kind
  reg : Bytes → Bool → Kind
  special : Kind

pub record Entry : Type 0 where
  pub name : String
  pub kind : Kind

-- What the host takes: a path for os.MkdirAll, a file to create and write.
pub record Host : Type 0 where
  pub makes_dir : String → Bool
  pub writes : String → Bool

pub data ExtractError : Type 0 where
  bad_gzip : ExtractError
  read_archive : ExtractError
  escapes : String → ExtractError
  create : String → ExtractError
  write : String → ExtractError
  too_many_files : ExtractError
  too_large : ExtractError

-- What was created so far, last first, with the counters of the loop. `dirs` are the paths that
-- os.MkdirAll was called for: what it makes on the way to each is not listed.
pub record Extraction : Type 0 where
  pub dirs : List String
  pub written : List (String × Bytes)
  pub files : ℕ
  pub total_bytes : ℕ

abbrev pub start : Extraction
start = record { dirs = []; written = []; files = 0; total_bytes = 0 }

-- A function that may fail, with what it did before.
pub record Extracted : Type 0 where
  pub state : Extraction
  pub outcome : Result ExtractError (Unit {0})

abbrev pub stop : Extraction → ExtractError → Extracted
stop st e = record { state = st; outcome = err e }

abbrev pub add_dir : String → Extraction → Extraction
add_dir target st = record st { dirs = target ∷ st.dirs }

unfoldable pub count_file : Extraction → Extraction
count_file st = record st { files = st.files + 1 }

-- writeFile with the bytes that the limit lets through
unfoldable pub put_file : String → Bytes → Extraction → Extraction
put_file target bytes st = record st { written = (target, bytes) ∷ st.written }

unfoldable pub count_bytes : Bytes → Extraction → Extraction
count_bytes bytes st = record st { total_bytes = st.total_bytes + length bytes }

-- io.LimitReader(tr, remaining+1)
unfoldable pub limited : Extraction → Bytes → Bytes
unfolding take_bytes
limited st content = take_bytes (max_archive_bytes - st.total_bytes + 1) content

-- The copy meets the end of content that breaks off: it is shorter than the limit.
unfoldable pub breaks : Bool → Bytes → Extraction → Bool
breaks broken content st = broken && ltb (length content) (max_archive_bytes - st.total_bytes + 1)

module _ (host : Host) (dest : String) where
  -- writeFile and the check behind it: `next` goes on with the loop.
  unfoldable pub store_file :
      String → Bytes → Bool → Extraction → (Extraction → Extracted) → Extracted
  unfolding limited put_file count_bytes breaks
  store_file target content broken st next =
      let copied = limited st content in
      let put = put_file target copied st in
      let counted = count_bytes copied put in
      if not (host.writes target)
      then stop st (write target)
      else if breaks broken content st
      then stop put (write target)
      else if ltb max_archive_bytes counted.total_bytes
      then stop counted too_large
      else next counted

  -- a regular file, behind the count of files
  unfoldable pub extract_file :
      String → Bytes → Bool → Extraction → (Extraction → Extracted) → Extracted
  unfolding store_file dir_of
  extract_file target content broken st next =
      if host.makes_dir (dir_of target)
      then store_file target content broken (add_dir (dir_of target) st) next
      else stop st (create (dir_of target))

  unfoldable pub extract_entry : String → Kind → Extraction → (Extraction → Extracted) → Extracted
  unfolding extract_file count_file
  extract_entry target dir st next =
      if host.makes_dir target then next (add_dir target st) else stop st (create target)
  extract_entry target (reg content broken) st next =
      let counted = count_file st in
      if ltb max_archive_files counted.files
      then stop counted too_many_files
      else extract_file target content broken counted next
  extract_entry target special st next = next st

  unfoldable pub extract_named :
      String → Option String → Kind → Extraction → (Extraction → Extracted) → Extracted
  unfolding extract_entry safe_rel_path join
  extract_named name none kind st next = next st
  extract_named name (some rel) kind st next =
      if not (safe_rel_path rel)
      then stop st (escapes name)
      else extract_entry (join dest rel) kind st next

  -- the loop over the archive; `intact` says that the stream ends with io.EOF
  unfoldable pub extract_loop : Bool → List Entry → Extraction → Extracted
  unfolding extract_named strip_root
  extract_loop intact [] st =
      if intact then record { state = st; outcome = ok tt } else stop st read_archive
  extract_loop intact (e ∷ es) st =
      extract_named e.name (strip_root e.name) e.kind st (extract_loop intact es)

  -- An archive that is no gzip stream has no entries to read.
  unfoldable pub extract_tar_gz : Option (Bool × List Entry) → Extracted
  unfolding extract_loop
  extract_tar_gz none = stop start bad_gzip
  extract_tar_gz (some (intact, entries)) = extract_loop intact entries start
