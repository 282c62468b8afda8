-- ===== src/Source/Archive/Bounded.antt =====
-- extractTarGz of internal/source/github.go: how much an archive can leave on the disk.
use node_box.Prelude.{
  ℕ, zero, suc, ◌+◌, ◌-◌, ◌≤◌, ◌<◌, String, ◌≡◌, refl, Bool, true, false, not, Option, none, some,
  List, [], ◌∷◌, arith, ltb, length, if◌then◌else◌, ok,
}
use node_box.Fetch.{Bytes, take_bytes}
use node_box.Output.Target.{join}
use node_box.Output.Dirs.{dir_of}
use node_box.Source.Archive.{
  max_archive_bytes, max_archive_files, strip_root, safe_rel_path, Kind, dir, reg, special, Entry,
  Host, ExtractError, Extraction, Extracted, start, stop, add_dir, put_file, count_file,
  count_bytes, limited, breaks, store_file, extract_file, extract_entry, extract_named,
  extract_loop, extract_tar_gz, too_many_files, too_large, read_archive, write, create, escapes,
}

-- the bytes of all files written
abbrev pub bytes_of : List (String × Bytes) → ℕ
bytes_of [] = 0
bytes_of (f ∷ fs) = length f.1 + bytes_of fs

-- The loop's counters tell the truth and stand within the limits.
abbrev Counted : Extraction → Type 0
Counted st =
    (bytes_of st.written ≡ st.total_bytes)
    × (st.total_bytes ≤ max_archive_bytes)
    × (length st.written ≤ st.files)
    × (st.files ≤ max_archive_files)

-- However the run ends: no more files than allowed, and one byte too many at most, which is then
-- an error.
abbrev pub WithinLimits : Extracted → Type 0
WithinLimits run =
    (length run.state.written ≤ max_archive_files)
    × (bytes_of run.state.written ≤ max_archive_bytes + 1)
    × (run.outcome ≡ ok tt → bytes_of run.state.written ≤ max_archive_bytes)

length-take_le : (n : ℕ) (bs : Bytes) → length (take_bytes n bs) ≤ n
unfolding take_bytes
length-take_le zero bs = omega arith
length-take_le (suc n) [] = omega arith
length-take_le (suc n) (b ∷ bs) = omega (arith, length-take_le n bs)

stop-WithinLimits :
    (st : Extraction) (e : ExtractError)
    → length st.written ≤ max_archive_files
    → bytes_of st.written ≤ max_archive_bytes + 1
    → WithinLimits (stop st e)
stop-WithinLimits st e a b = (a, b, λ h. cc)

stop-within : (st : Extraction) (e : ExtractError) → Counted st → WithinLimits (stop st e)
stop-within st e (a, b, c, d) = stop-WithinLimits st e (omega (arith, c, d)) (omega (arith, a, b))

module _ (host : Host) (dest : String) (next : Extraction → Extracted)
    (go_on : (st : Extraction) → Counted st → WithinLimits (next st)) where
  store_file-WithinLimits :
      (target : String) (content : Bytes) (broken : Bool) (st : Extraction)
      → Counted (record st { files = st.files - 1 })
      → 0 < st.files
      → st.files ≤ max_archive_files
      → WithinLimits (store_file host dest target content broken st next)
  unfolding store_file limited put_file count_bytes
  store_file-WithinLimits target content broken st (a, b, c, d) pos le =
      go (host.writes target) (breaks broken content st)
        (ltb max_archive_bytes (st.total_bytes + length copied)) refl
    where
      copied : Bytes
      copied = limited st content

      short : length copied ≤ max_archive_bytes - st.total_bytes + 1
      short = length-take_le (max_archive_bytes - st.total_bytes + 1) content

      go :
          (w x y : Bool)
          → ltb max_archive_bytes (st.total_bytes + length copied) ≡ y
          → WithinLimits (
              if not w
              then stop st (write target)
              else if x
              then stop (put_file target copied st) (write target)
              else if y
              then stop (count_bytes copied (put_file target copied st)) too_large
              else next (count_bytes copied (put_file target copied st)))
      go false x y e =
          stop-WithinLimits st (write target) (omega (arith, c, pos, le)) (omega (arith, a, b))
      go true true y e =
          stop-WithinLimits (put_file target copied st) (write target) (omega (arith, c, pos, le))
            (omega (arith, a, b, short))
      go true false true e =
          stop-WithinLimits (count_bytes copied (put_file target copied st)) too_large
            (omega (arith, c, pos, le)) (omega (arith, a, b, short))
      go true false false e = go_on _ (omega (arith, a), ground arith, omega (arith, c, pos), le)

  extract_file-WithinLimits :
      (target : String) (content : Bytes) (broken : Bool) (st : Extraction)
      → Counted (record st { files = st.files - 1 })
      → 0 < st.files
      → st.files ≤ max_archive_files
      → WithinLimits (extract_file host dest target content broken st next)
  unfolding extract_file store_file
  extract_file-WithinLimits target content broken st (a, b, c, d) pos le =
      go (host.makes_dir (dir_of target))
    where
      go :
          (m : Bool)
          → WithinLimits (
              if m
              then store_file host dest target content broken (add_dir (dir_of target) st) next
              else stop st (create (dir_of target)))
      go true =
          store_file-WithinLimits target content broken (add_dir (dir_of target) st) (a, b, c, d)
            pos le
      go false =
          stop-WithinLimits st (create (dir_of target)) (omega (arith, c, pos, le))
            (omega (arith, a, b))

  extract_entry-WithinLimits :
      (target : String) (kind : Kind) (st : Extraction)
      → Counted st
      → WithinLimits (extract_entry host dest target kind st next)
  unfolding extract_entry count_file
  extract_entry-WithinLimits target dir st c = go (host.makes_dir target)
    where
      go :
          (b : Bool)
          → WithinLimits (if b then next (add_dir target st) else stop st (create target))
      go true = go_on (add_dir target st) c
      go false = stop-within st (create target) c
  extract_entry-WithinLimits target special st c = go_on st c
  extract_entry-WithinLimits target (reg content broken) st (a, b, c, d) =
      go (ltb max_archive_files (st.files + 1)) refl
    where
      go :
          (b : Bool)
          → ltb max_archive_files (st.files + 1) ≡ b
          → WithinLimits (
              if b
              then stop (count_file st) too_many_files
              else extract_file host dest target content broken (count_file st) next)
      go true e = stop-within st too_many_files (a, b, c, d)
      go false e =
          extract_file-WithinLimits target content broken (count_file st)
            (a, b, omega (arith, c), omega (arith, d)) (omega arith) (ground arith)

  extract_named-WithinLimits :
      (name : String) (rel : Option String) (kind : Kind) (st : Extraction)
      → Counted st
      → WithinLimits (extract_named host dest name rel kind st next)
  unfolding extract_named
  extract_named-WithinLimits name none kind st c = go_on st c
  extract_named-WithinLimits name (some rel) kind st c = go (safe_rel_path rel)
    where
      go :
          (b : Bool)
          → WithinLimits (
              if not b
              then stop st (escapes name)
              else extract_entry host dest (join dest rel) kind st next)
      go false = stop-within st (escapes name) c
      go true = extract_entry-WithinLimits (join dest rel) kind st c

module _ (host : Host) (dest : String) where
  extract_loop-WithinLimits :
      (intact : Bool) (entries : List Entry) (st : Extraction)
      → Counted st
      → WithinLimits (extract_loop host dest intact entries st)
  unfolding extract_loop
  extract_loop-WithinLimits true [] st (a, b, c, d) =
      (omega (arith, c, d), omega (arith, a, b), λ _. omega (arith, a, b))
  extract_loop-WithinLimits false [] st c = stop-within st read_archive c
  extract_loop-WithinLimits intact (e ∷ es) st c =
      extract_named-WithinLimits host dest (extract_loop host dest intact es)
        (extract_loop-WithinLimits intact es) e.name (strip_root e.name) e.kind st c

  -- Whatever the archive, and however the extraction ends, at most 5000 files are written and at
  -- most one byte more than 64 MiB; a success wrote at most 64 MiB.
  pub extract_tar_gz-WithinLimits :
      (archive : Option (Bool × List Entry)) → WithinLimits (extract_tar_gz host dest archive)
  unfolding extract_tar_gz
  extract_tar_gz-WithinLimits none = (omega arith, omega arith, λ h. cc)
  extract_tar_gz-WithinLimits (some (intact, entries)) =
      extract_loop-WithinLimits intact entries start (refl, omega arith, omega arith, omega arith)
