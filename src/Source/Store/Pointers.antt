-- ===== src/Source/Store/Pointers.antt =====
-- SetPointer and Pointer of internal/source/store.go, and the line that a pointer file holds.
use Prim.Native.Char.{Char, code}
use node_box.Prelude.{
  ℕ, String, ◌≡◌, ◌≢◌, ◌⊎◌, refl, ap, inl, inr, true, false, not, ◌&&◌, Option, none, some, arith,
  ◌==◌, Bool-cases, if◌then◌else◌, eq_false→ne,
}
use node_box.TextUtil.{concat, trim_space, trim_left, trim_right, push_trimmed, is_space}
use node_box.Source.Store.{
  Store, Pointer, current_pointer, previous_pointer, StoreHost, StoreError, is_ref_rune,
  all_ref_runes, valid_ref, has_snapshot, content, usable, read_pointer, pointer, with_pointer,
  set_pointer,
}

ref_rune_no_space : (r : ℕ) → is_ref_rune r ≡ true → is_space r ≡ false
unfolding is_ref_rune is_space
ref_rune_no_space r h = ground arith

push_no_space :
    (c : Char) (s : String) → is_space (code c) ≡ false → push_trimmed c s ≡ String.◌∷◌ c s
unfolding push_trimmed
push_no_space c String.[] h = rw h refl
push_no_space c (String.◌∷◌ d s) h = refl

trim_right_ref : (s : String) → all_ref_runes s ≡ true → trim_right (concat s "\n") ≡ s
unfolding trim_right concat all_ref_runes is_space push_trimmed
trim_right_ref String.[] h = refl
trim_right_ref (String.◌∷◌ c s) h =
    rw (trim_right_ref s (ground arith))
      (push_no_space c s (ref_rune_no_space (code c) (ground arith)))

trim_left_ref :
    (s : String) → all_ref_runes s ≡ true → s ≢ "" → trim_left (concat s "\n") ≡ concat s "\n"
unfolding trim_left concat all_ref_runes
trim_left_ref String.[] h ne = absurd (ne refl)
trim_left_ref (String.◌∷◌ c s) h ne = rw (ref_rune_no_space (code c) (ground arith)) refl

trim-line : (s : String) → valid_ref s ≡ true → trim_space (concat s "\n") ≡ s
unfolding trim_space valid_ref
trim-line s h =
    let a : all_ref_runes s ≡ true = ground arith in
    rw (trim_left_ref s a (eq_false→ne s "" (ground arith))) (trim_right_ref s a)

pub has_snapshot-valid_ref :
    (store : Store) (ref : String) → has_snapshot store ref ≡ true → valid_ref ref ≡ true
unfolding has_snapshot
has_snapshot-valid_ref store ref h = ground arith

pub empty_false : (ref : String) → valid_ref ref ≡ true → (ref == "") ≡ false
unfolding valid_ref
empty_false ref h = ground arith

pub usable-known :
    (store : Store) (ref : String) → has_snapshot store ref ≡ true → usable store ref ≡ some ref
unfolding usable
usable-known store ref h = ground (arith, empty_false ref (has_snapshot-valid_ref store ref h))

has_snapshot-with_pointer :
    (store : Store) (p : Pointer) (text ref : String)
    → has_snapshot (with_pointer store p text) ref ≡ has_snapshot store ref
unfolding has_snapshot with_pointer
has_snapshot-with_pointer store current_pointer text ref = refl
has_snapshot-with_pointer store previous_pointer text ref = refl

read_pointer-with_pointer :
    (store : Store) (p : Pointer) (text : String) (o : Option String)
    → read_pointer (with_pointer store p text) o ≡ read_pointer store o
unfolding read_pointer usable
read_pointer-with_pointer store p text none = refl
read_pointer-with_pointer store p text (some t) =
    rw (has_snapshot-with_pointer store p text (trim_space t)) refl

-- What a read of `q` gives once `p` is set to `ref`, where it gave `old` before.
abbrev pub after_set : Pointer → Pointer → String → Option String → Option String
after_set current_pointer current_pointer ref old = some ref
after_set previous_pointer previous_pointer ref old = some ref
after_set current_pointer previous_pointer ref old = old
after_set previous_pointer current_pointer ref old = old

known_line :
    (store : Store) (ref : String)
    → has_snapshot store ref ≡ true
    → read_pointer store (some (concat ref "\n")) ≡ some ref
unfolding read_pointer
known_line store ref h =
    rw (trim-line ref (has_snapshot-valid_ref store ref h)) (usable-known store ref h)

read-content :
    (store : Store) (p q : Pointer) (ref : String)
    → has_snapshot store ref ≡ true
    → read_pointer store (content (with_pointer store p (concat ref "\n")) q)
      ≡ after_set p q ref (read_pointer store (content store q))
unfolding content with_pointer
read-content store current_pointer current_pointer ref h = known_line store ref h
read-content store previous_pointer previous_pointer ref h = known_line store ref h
read-content store current_pointer previous_pointer ref h = refl
read-content store previous_pointer current_pointer ref h = refl

pointer-with_pointer :
    (store : Store) (p q : Pointer) (ref : String)
    → has_snapshot store ref ≡ true
    → pointer (with_pointer store p (concat ref "\n")) q ≡ after_set p q ref (pointer store q)
unfolding pointer
pointer-with_pointer store p q ref h =
    rw
      (read_pointer-with_pointer store p (concat ref "\n")
        (content (with_pointer store p (concat ref "\n")) q))
      (read-content store p q ref h)

-- What is left of the store and the error, as SetPointer reports them: an unknown snapshot and a
-- refused write leave the store as it was, and after a success the pointer reads as the ref and the
-- other pointer as before.
abbrev pub IsPointed : StoreHost → Store → Pointer → String → Store × Option StoreError → Type 0
IsPointed host store p ref (after, none) =
    (has_snapshot store ref ≡ true)
    × (host.refuses_pointer p ≡ false)
    × (after.snapshots ≡ store.snapshots)
    × ((q : Pointer) → pointer after q ≡ after_set p q ref (pointer store q))
IsPointed host store p ref (after, some e) =
    (after ≡ store) × ((has_snapshot store ref ≡ false) ⊎ (host.refuses_pointer p ≡ true))

snapshots-with_pointer :
    (store : Store) (p : Pointer) (text : String)
    → (with_pointer store p text).snapshots ≡ store.snapshots
unfolding with_pointer
snapshots-with_pointer store current_pointer text = refl
snapshots-with_pointer store previous_pointer text = refl

-- Setting a pointer, on every branch: it fails where the snapshot is unknown or the file cannot be
-- replaced, and then the store is as it was; otherwise the snapshots are the same, the pointer that
-- was set reads as the ref, and the other one as before.
pub set_pointer-IsPointed :
    (host : StoreHost) (store : Store) (p : Pointer) (ref : String)
    → IsPointed host store p ref (set_pointer host store p ref)
unfolding set_pointer
set_pointer-IsPointed host store p ref = elim (Bool-cases (has_snapshot store ref)) [
  | inr f ↦ rw f (refl, inl f)
  | inl h ↦ elim (Bool-cases (host.refuses_pointer p)) [
    | inl r ↦ rw (h, r) (refl, inr r)
    | inr r ↦
        rw (h, r)
          (
            h,
            r,
            snapshots-with_pointer store p (concat ref "\n"),
            λ q. pointer-with_pointer store p q ref h,
          )
  ]
]

has_snapshot-same :
    (a b : Store) (r : String) → a.snapshots ≡ b.snapshots → has_snapshot a r ≡ has_snapshot b r
unfolding has_snapshot
has_snapshot-same a b r e = rw e refl

-- What both pointers read after an attempt, successful or not.
pub pointer-set_pointer :
    (host : StoreHost) (store : Store) (p q : Pointer) (ref : String)
    → pointer (set_pointer host store p ref).0 q ≡ (
        if has_snapshot store ref && not (host.refuses_pointer p)
        then after_set p q ref (pointer store q)
        else pointer store q)
pointer-set_pointer host store p q ref =
    go (set_pointer host store p ref) (set_pointer-IsPointed host store p ref)
  where
    go :
        (r : Store × Option StoreError)
        → IsPointed host store p ref r
        → pointer r.0 q ≡ (
            if has_snapshot store ref && not (host.refuses_pointer p)
            then after_set p q ref (pointer store q)
            else pointer store q)
    go (after, none) (h, f, s, pt) = rw (h, f) (pt q)
    go (after, some e) (same, inl f) = rw f (ap (λ s. pointer s q) same)
    go (after, some e) (same, inr f) = elim (Bool-cases (has_snapshot store ref)) [
      | inl h ↦ rw (h, f) (ap (λ s. pointer s q) same)
      | inr h ↦ rw h (ap (λ s. pointer s q) same)
    ]

pub has_snapshot-set_pointer :
    (host : StoreHost) (store : Store) (p : Pointer) (ref r : String)
    → has_snapshot (set_pointer host store p ref).0 r ≡ has_snapshot store r
has_snapshot-set_pointer host store p ref r =
    go (set_pointer host store p ref) (set_pointer-IsPointed host store p ref)
  where
    go :
        (x : Store × Option StoreError)
        → IsPointed host store p ref x
        → has_snapshot x.0 r ≡ has_snapshot store r
    go (after, none) (h, f, s, pt) = has_snapshot-same after store r s
    go (after, some e) (same, f) = ap (λ s. has_snapshot s r) same
