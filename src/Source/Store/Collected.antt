-- ===== src/Source/Store/Collected.antt =====
-- GC of internal/source/store.go: what is removed and what is kept.
use node_box.Prelude.{
  ℕ, suc, ◌-◌, ◌≤◌, String, ◌≡◌, refl, sym, subst, ◌↔◌, inl, inr, Bool, true, false, not, ◌||◌,
  Option, none, some, List, [], ◌∷◌, In, IsDistinct, has, Bool-cases, arith, length, leb, eqb,
  In-select, In-select_inv, In-append_left, In-append_right, In→has, has→In, not→has_false,
  has_false→not,
}
use node_box.TextUtil.{trim_space}
use node_box.Source.Store.{
  Stored, Store, StoreHost, Pointer, current_pointer, previous_pointer, list, refs, take, drop,
  valid_ref, pinned, pinned_by, expired, gc, kept, pointer, content, usable, has_snapshot,
  read_pointer,
}
use node_box.Source.Store.Pointers.{usable-known}
use node_box.Source.Store.Ordered.{list-cut}
use node_box.Source.Store.Sorted.{In-refs, In-refs_inv, IsDistinct-list, cut_apart}

-- The newest `keep` of a list that is sorted oldest first.
abbrev pub newest : ℕ → List Stored → List Stored
newest keep stored = drop (length stored - keep) stored

-- The others.
abbrev pub oldest : ℕ → List Stored → List Stored
oldest keep stored = take (length stored - keep) stored

-- `after` is what a collection that keeps `keep` snapshots leaves of `store`.
abbrev pub IsCollected : StoreHost → Store → ℕ → Store → Type 0
IsCollected host store keep after =
    ((s : Stored) → In s after.snapshots → In s store.snapshots)
    × ((s : Stored) → In s store.snapshots → In s.ref (pinned store) → In s after.snapshots)
    × ((s : Stored) → In s store.snapshots → In s (newest keep (list store)) → In s after.snapshots)
    × ((s : Stored)
        → In s (oldest keep (list store))
        → (¬ In s.ref (pinned store))
        → host.keeps s.ref ≡ false
        → ¬ In s after.snapshots)
    × ((s t : Stored)
        → In s (newest keep (list store))
        → In t (oldest keep (list store))
        → t.modified ≤ s.modified)
    × ((p : Pointer) → pointer after p ≡ pointer store p)

In-expired :
    (store : Store) (keep : ℕ) (r : String)
    → In r (expired store keep)
    → In r (refs (take (length (list store) - keep) (list store))) × (has r (pinned store) ≡ false)
unfolding expired
In-expired store keep r i = elim (Bool-cases (leb (length (list store)) keep)) [
  | inl b ↦ absurd (let j : In r [] = rw b at i in j)
  | inr b ↦
      let (j, h) = In-select_inv (λ ref. not (has ref (pinned store))) r _ (rw b at i) in
      (j, ground arith)
]

take_none : (n : ℕ) (s : Stored) (xs : List Stored) → n ≡ 0 → In s (take n xs) → ⊥
unfolding take
take_none n s [] e i = i
take_none ℕ.zero s (x ∷ xs) e i = i
take_none (suc n) s (x ∷ xs) e i = ground arith

expired_intro :
    (store : Store) (keep : ℕ) (s : Stored)
    → In s (oldest keep (list store))
    → (¬ In s.ref (pinned store))
    → In s.ref (expired store keep)
unfolding expired
expired_intro store keep s i n = elim (Bool-cases (leb (length (list store)) keep)) [
  | inl b ↦ absurd (take_none (length (list store) - keep) s (list store) (ground arith) i)
  | inr b ↦ rw b (
      In-select (λ ref. not (has ref (pinned store))) s.ref _ (In-refs s _ i)
        (rw (not→has_false s.ref (pinned store) n) refl))
]

has_snapshot_iff :
    (store : Store) (r : String)
    → (has_snapshot store r ≡ true) ↔ ((valid_ref r ≡ true) × In r (refs store.snapshots))
unfolding has_snapshot
has_snapshot_iff store r = (
  λ h. (ground arith, has→In r (refs store.snapshots) (ground arith)),
  λ h. let k = In→has r (refs store.snapshots) h.1 in rw (h.0, k) refl,
)

has_snapshot_mono :
    (a b : Store) (r : String)
    → ((s : Stored) → In s a.snapshots → r ≡ s.ref → In s b.snapshots)
    → has_snapshot a r ≡ true
    → has_snapshot b r ≡ true
has_snapshot_mono a b r sub h =
    let (v, i) = (has_snapshot_iff a r).0 h in
    let (s, j, e) = In-refs_inv r a.snapshots i in
    (has_snapshot_iff b r).1
      (v, subst (λ x. In x (refs b.snapshots)) (sym e) (In-refs s b.snapshots (sub s j e)))

both_or_none : (a b : Bool) → (a ≡ true → b ≡ true) → (b ≡ true → a ≡ true) → a ≡ b
both_or_none true b f g = sym (f refl)
both_or_none false true f g = g refl
both_or_none false false f g = refl

pointer-pinned :
    (store : Store) (p : Pointer) (r : String) → pointer store p ≡ some r → In r (pinned store)
unfolding pinned
pointer-pinned store current_pointer r h =
    In-append_left r (pinned_by (pointer store current_pointer)) _ (rw h (inl refl))
pointer-pinned store previous_pointer r h =
    In-append_right r (pinned_by (pointer store current_pointer)) _ (rw h (inl refl))

-- A text that names a snapshot in both stores or in none is read alike.
usable-same :
    (a b : Store) (t : String) → has_snapshot a t ≡ has_snapshot b t → usable a t ≡ usable b t
unfolding usable
usable-same a b t e = rw e refl

module _ (host : StoreHost) (store : Store) (keep : ℕ) where
  survives :
      (s : Stored)
      → In s store.snapshots
      → (¬ In s.ref (expired store (kept keep)))
      → In s (gc host store keep).snapshots
  unfolding gc
  survives s i n =
      In-select _ s store.snapshots i (rw (not→has_false s.ref (expired store (kept keep)) n) refl)

  stored_before : (s : Stored) → In s (gc host store keep).snapshots → In s store.snapshots
  unfolding gc
  stored_before s i = (In-select_inv _ s store.snapshots i).0

  removed :
      (s : Stored)
      → In s (oldest (kept keep) (list store))
      → (¬ In s.ref (pinned store))
      → host.keeps s.ref ≡ false
      → ¬ In s (gc host store keep).snapshots
  unfolding gc
  removed s o n k i =
      let (_, h) =
        In-select_inv (λ s. not (has s.ref (expired store (kept keep))) || host.keeps s.ref) s
          store.snapshots i in
      let m = In→has s.ref (expired store (kept keep)) (expired_intro store (kept keep) s o n) in
      ground arith

  pinned_survives :
      (s : Stored)
      → In s store.snapshots
      → In s.ref (pinned store)
      → In s (gc host store keep).snapshots
  pinned_survives s i p =
      survives s i
        (λ e. has_false→not s.ref (pinned store) (In-expired store (kept keep) s.ref e).1 p)

  newest_survives :
      (s : Stored)
      → IsDistinct (refs store.snapshots)
      → In s store.snapshots
      → In s (newest (kept keep) (list store))
      → In s (gc host store keep).snapshots
  newest_survives s d i n = survives s i (λ e.
      cut_apart (length (list store) - kept keep) s (list store) (IsDistinct-list store d) n
        (In-expired store (kept keep) s.ref e).0)

  has_snapshot-gc :
      (r : String)
      → (has_snapshot store r ≡ true → In r (pinned store))
      → has_snapshot (gc host store keep) r ≡ has_snapshot store r
  has_snapshot-gc r c =
      both_or_none _ _ (has_snapshot_mono (gc host store keep) store r (λ s i e. stored_before s i))
        (λ h.
          has_snapshot_mono store (gc host store keep) r
            (λ s i e. pinned_survives s i (subst (λ x. In x (pinned store)) e (c h))) h)

  read-gc :
      (o : Option String)
      → ((r : String) → read_pointer store o ≡ some r → In r (pinned store))
      → read_pointer (gc host store keep) o ≡ read_pointer store o
  unfolding read_pointer
  read-gc none pin = refl
  read-gc (some text) pin = usable-same (gc host store keep) store (trim_space text) (
      has_snapshot-gc (trim_space text)
        (λ h. pin (trim_space text) (usable-known store (trim_space text) h)))

  content-gc : (p : Pointer) → content (gc host store keep) p ≡ content store p
  unfolding content gc
  content-gc current_pointer = refl
  content-gc previous_pointer = refl

  pub pointer-gc : (p : Pointer) → pointer (gc host store keep) p ≡ pointer store p
  unfolding pointer
  pointer-gc p = rw (content-gc p) (read-gc (content store p) (λ r h. pointer-pinned store p r h))

-- How many snapshots a number stands for.
abbrev pub ten_or : ℕ → ℕ
ten_or ℕ.zero = 10
ten_or (suc n) = suc n

kept-ten_or : (keep : ℕ) → kept keep ≡ ten_or keep
unfolding kept
kept-ten_or ℕ.zero = refl
kept-ten_or (suc n) = let ne : eqb (suc n) 0 ≡ false = ground arith in rw ne refl

-- A collection invents no snapshot, keeps every one that a pointer names and the newest `keep` of
-- the listed ones (ten where `keep` is not positive), removes the other listed ones unless the host
-- refuses, none of which was modified later than one of those newest, and leaves both pointers reading as before. The names in the directory are distinct.
pub gc-IsCollected :
    (host : StoreHost) (store : Store) (keep : ℕ)
    → IsDistinct (refs store.snapshots)
    → IsCollected host store (ten_or keep) (gc host store keep)
gc-IsCollected host store keep d =
    subst (λ n. IsCollected host store n (gc host store keep)) (kept-ten_or keep)
      (
        stored_before host store keep,
        pinned_survives host store keep,
        (λ s. newest_survives host store keep s d),
        removed host store keep,
        (λ s t i j. list-cut store (length (list store) - kept keep) s t j i),
        pointer-gc host store keep,
      )
