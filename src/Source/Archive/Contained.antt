-- ===== src/Source/Archive/Contained.antt =====
-- extractTarGz of internal/source/github.go: where an archive can write.
use node_box.Prelude.{
  String, ◌≡◌, ◌⊎◌, inl, inr, refl, Bool, true, false, not, Option, none, some, List, [], ◌∷◌,
  arith, All, if◌then◌else◌, ltb,
}
use node_box.Fetch.{Bytes}
use node_box.Model.Paths.Inside.{IsWithin, leads_out_iff}
use node_box.Output.Target.{join}
use node_box.Output.Dirs.{dir_of}
use node_box.TextUtil.{has_prefix}
use node_box.Source.Archive.{
  max_archive_bytes, max_archive_files, strip_root, safe_rel_path, Kind, dir, reg, special, Entry,
  Host, ExtractError, Extraction, Extracted, start, stop, add_dir, put_file, count_file,
  count_bytes, breaks, store_file, extract_file, extract_entry, extract_named, extract_loop,
  extract_tar_gz,
}

-- A path below the destination: relative, and its walk never climbs above where it starts.
abbrev pub IsBelow : String → String → Type 0
IsBelow dest target =
    (rel : String) × (target ≡ join dest rel) × (has_prefix rel "/" ≡ false) × IsWithin rel

safe_rel_path-IsBelow :
    (dest rel : String) → safe_rel_path rel ≡ true → IsBelow dest (join dest rel)
unfolding safe_rel_path
safe_rel_path-IsBelow dest rel h = (rel, refl, ground arith, (leads_out_iff rel).0 (ground arith))

module _ (host : Host) (dest : String) where
  -- A directory that an entry names, or the one in which a file of an entry stands.
  abbrev pub IsAskedFor : String → Type 0
  IsAskedFor d = IsBelow dest d ⊎ ((f : String) × IsBelow dest f × (d ≡ dir_of f))

  -- Every path that os.MkdirAll was called for, and every file that was made.
  abbrev pub Contained : Extraction → Type 0
  Contained st = All IsAskedFor st.dirs × All (λ f. IsBelow dest f.0) st.written

  if-Contained :
      (b : Bool) (x y : Extracted)
      → Contained x.state
      → Contained y.state
      → Contained (if b then x else y).state
  if-Contained true x y p q = p
  if-Contained false x y p q = q

  module _ (next : Extraction → Extracted)
      (go_on : (st : Extraction) → Contained st → Contained (next st).state) where
    store_file-Contained :
        (target : String) (content : Bytes) (broken : Bool) (st : Extraction)
        → IsBelow dest target
        → Contained st
        → Contained (store_file host dest target content broken st next).state
    unfolding store_file put_file count_bytes
    store_file-Contained target content broken st below (d, w) =
        if-Contained (not (host.writes target)) _ _ (d, w)
          (if-Contained (breaks broken content st) _ _ (d, (below, w))
            (if-Contained (ltb max_archive_bytes _) _ _ (d, (below, w)) (go_on _ (d, (below, w)))))

    extract_file-Contained :
        (target : String) (content : Bytes) (broken : Bool) (st : Extraction)
        → IsBelow dest target
        → Contained st
        → Contained (extract_file host dest target content broken st next).state
    unfolding extract_file store_file
    extract_file-Contained target content broken st below (d, w) =
        if-Contained (host.makes_dir (dir_of target)) _ _
          (store_file-Contained target content broken (add_dir (dir_of target) st) below
            ((inr (target, below, refl), d), w))
          (d, w)

    extract_entry-Contained :
        (target : String) (kind : Kind) (st : Extraction)
        → IsBelow dest target
        → Contained st
        → Contained (extract_entry host dest target kind st next).state
    unfolding extract_entry count_file
    extract_entry-Contained target dir st below (d, w) =
        if-Contained (host.makes_dir target) _ _ (go_on (add_dir target st) ((inl below, d), w))
          (d, w)
    extract_entry-Contained target (reg content broken) st below (d, w) =
        if-Contained (ltb max_archive_files _) _ _ (d, w)
          (extract_file-Contained target content broken (count_file st) below (d, w))
    extract_entry-Contained target special st below c = go_on st c

    extract_named-Contained :
        (name : String) (rel : Option String) (kind : Kind) (st : Extraction)
        → Contained st
        → Contained (extract_named host dest name rel kind st next).state
    unfolding extract_named
    extract_named-Contained name none kind st c = go_on st c
    extract_named-Contained name (some rel) kind st c = go (safe_rel_path rel) refl
      where
        go :
            (b : Bool)
            → safe_rel_path rel ≡ b
            → Contained
                (if not b
                  then stop st (ExtractError.escapes name)
                  else extract_entry host dest (join dest rel) kind st next).state
        go false e = c
        go true e =
            extract_entry-Contained (join dest rel) kind st (safe_rel_path-IsBelow dest rel e) c

  extract_loop-Contained :
      (intact : Bool) (entries : List Entry) (st : Extraction)
      → Contained st
      → Contained (extract_loop host dest intact entries st).state
  unfolding extract_loop
  extract_loop-Contained true [] st c = c
  extract_loop-Contained false [] st c = c
  extract_loop-Contained intact (e ∷ es) st c =
      extract_named-Contained (extract_loop host dest intact es) (extract_loop-Contained intact es)
        e.name (strip_root e.name) e.kind st c

  -- Whatever the archive, and however the extraction ends, every file that it makes is the
  -- destination joined with a relative path whose walk never climbs above its start, and every
  -- path for which it calls os.MkdirAll is such a path or the directory of such a file.
  pub extract_tar_gz-Contained :
      (archive : Option (Bool × List Entry)) → Contained (extract_tar_gz host dest archive).state
  unfolding extract_tar_gz
  extract_tar_gz-Contained none = (tt, tt)
  extract_tar_gz-Contained (some (intact, entries)) =
      extract_loop-Contained intact entries start (tt, tt)
