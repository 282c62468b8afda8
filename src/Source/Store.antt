-- ===== src/Source/Store.antt =====
-- internal/source/store.go: the snapshots directory with its two pointer files. The snapshots are
-- the entries that are directories, with what their config.json holds; a modification time is in
-- nanoseconds. What the host refuses (to replace a pointer, to remove or rename a directory) is a
-- parameter.
pub mod Pointers
pub mod Sorted
pub mod Ordered
pub mod Collected
use Prim.Native.Char.{Char, code}
use Prim.Native.Nat.{Ordering}
use Prim.Native.String.{compare}
use node_box.Prelude.{
  ℕ, suc, ◌-◌, ◌+◌, String, Bool, true, false, not, ◌&&◌, ◌||◌, Option, none, some, List, [], ◌∷◌,
  ◌++◌, map, ◌==◌, ltb, leb, eqb, if◌then◌else◌, Result, ok, err, length, select, Names, has,
}
use node_box.TextUtil.{between, concat, trim_space, has_prefix}

pub record Stored : Type 0 where
  pub ref : String
  pub modified : ℕ
  pub config : Option String

-- `current` and `previous` are the contents of the pointer files.
pub record Store : Type 0 where
  pub snapshots : List Stored
  pub current : Option String
  pub previous : Option String

pub data Pointer : Type 0 where
  current_pointer previous_pointer : Pointer

pub record StoreHost : Type 0 where
  pub refuses_pointer : Pointer → Bool
  pub refuses_scratch : Bool
  pub refuses_rename : String → Bool
  pub keeps : String → Bool

pub data StoreError : Type 0 where
  unknown_snapshot : String → StoreError
  write_refused commit_refused : StoreError

unfoldable pub is_ref_rune : ℕ → Bool
is_ref_rune r =
    between b'a' b'z' r || between b'A' b'Z' r || between b'0' b'9' r || eqb r b'-' || eqb r b'_'

unfoldable pub all_ref_runes : String → Bool
all_ref_runes String.[] = true
all_ref_runes (String.◌∷◌ c s) = is_ref_rune (code c) && all_ref_runes s

-- Where every rune passes, each takes one byte.
rune_count : String → ℕ
rune_count String.[] = 0
rune_count (String.◌∷◌ c s) = suc (rune_count s)

unfoldable pub valid_ref : String → Bool
unfolding is_ref_rune all_ref_runes rune_count
valid_ref ref = not (ref == "" || ltb 128 (rune_count ref)) && all_ref_runes ref

unfoldable pub refs : List Stored → Names
refs ss = map (λ s. s.ref) ss

-- Store.Has
unfoldable pub has_snapshot : Store → String → Bool
unfolding valid_ref
has_snapshot store ref = valid_ref ref && has ref (refs store.snapshots)

unfoldable pub content : Store → Pointer → Option String
content store current_pointer = store.current
content store previous_pointer = store.previous

-- the ref that a pointer file holds, unless it is empty or its snapshot is gone
unfoldable pub usable : Store → String → Option String
usable store ref = if ref == "" || not (has_snapshot store ref) then none else some ref

unfoldable pub read_pointer : Store → Option String → Option String
read_pointer store none = none
read_pointer store (some text) = usable store (trim_space text)

-- Store.Pointer
unfoldable pub pointer : Store → Pointer → Option String
unfolding read_pointer usable content
pointer store p = read_pointer store (content store p)

unfoldable pub with_pointer : Store → Pointer → String → Store
with_pointer store current_pointer text = record store { current = some text }
with_pointer store previous_pointer text = record store { previous = some text }

-- Store.SetPointer: the store that is left, and the error.
unfoldable pub set_pointer : StoreHost → Store → Pointer → String → Store × Option StoreError
unfolding with_pointer
set_pointer host store p ref =
    if not (has_snapshot store ref)
    then (store, some (unknown_snapshot ref))
    else if host.refuses_pointer p
    then (store, some write_refused)
    else (with_pointer store p (concat ref "\n"), none)

-- Store.Commit of a scratch directory with the given config.json and modification time: the store that
-- is left, and the error.
unfoldable pub commit : StoreHost → Store → String → ℕ → Option String → Store × Option StoreError
commit host store ref modified config =
    if has_snapshot store ref
    then (store, none)
    else if host.refuses_rename ref
    then (store, some commit_refused)
    else (
      record store {
        snapshots =
            store.snapshots ++ record { ref = ref; modified = modified; config = config } ∷ [];
      },
      none,
    )

-- the comparison of List: older first, then by name
unfoldable pub before : Stored → Stored → Bool
before a b =
    ltb a.modified b.modified
    || (eqb a.modified b.modified && elim (compare a.ref b.ref) [ Ordering.gt ↦ false | _ ↦ true ])

unfoldable pub insert_sorted : Stored → List Stored → List Stored
unfolding before
insert_sorted s [] = s ∷ []
insert_sorted s (t ∷ ts) =
    let rest = t ∷ insert_sorted s ts in if before s t then s ∷ t ∷ ts else rest

-- slices.SortFunc
unfoldable pub sort : List Stored → List Stored
unfolding insert_sorted
sort [] = []
sort (s ∷ ss) = insert_sorted s (sort ss)

-- Store.List, before the refs are taken
unfoldable pub list : Store → List Stored
unfolding sort valid_ref
list store = sort (select (λ s. valid_ref s.ref) store.snapshots)

unfoldable pub pinned_by : Option String → Names
pinned_by none = []
pinned_by (some ref) = ref ∷ []

unfoldable pub pinned : Store → Names
unfolding pinned_by pointer
pinned store =
    pinned_by (pointer store current_pointer) ++ pinned_by (pointer store previous_pointer)

-- xs[:n]
unfoldable pub take : ℕ → List Stored → List Stored
take n [] = []
take ℕ.zero (x ∷ xs) = []
take (suc n) (x ∷ xs) = x ∷ take n xs

abbrev pub default_keep : ℕ
default_keep = 10

-- xs[n:]
unfoldable pub drop : ℕ → List Stored → List Stored
drop n [] = []
drop ℕ.zero (x ∷ xs) = x ∷ xs
drop (suc n) (x ∷ xs) = drop n xs

-- the refs that GC tries to remove
unfoldable pub expired : Store → ℕ → Names
unfolding list take refs pinned
expired store keep =
    let stored = list store in
    let old = refs (take (length stored - keep) stored) in
    let pins = pinned store in
    if leb (length stored) keep then [] else select (λ ref. not (has ref pins)) old

unfoldable pub kept : ℕ → ℕ
kept keep = if eqb keep 0 then default_keep else keep

-- Store.GC; `keep` is an int, and `0` stands for what is not positive.
unfoldable pub gc : StoreHost → Store → ℕ → Store
unfolding expired kept
gc host store keep =
    let removed = expired store (kept keep) in
    record store {
      snapshots = select (λ s. not (has s.ref removed) || host.keeps s.ref) store.snapshots;
    }
