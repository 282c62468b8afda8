-- ===== src/Source/Store/Ordered.antt =====
-- List of internal/source/store.go: the older snapshots come first.
use node_box.Prelude.{
  ℕ, suc, ◌≤◌, ◌≡◌, inl, inr, subst, sym, true, false, List, [], ◌∷◌, arith, All, All-In, In,
  Bool-cases, select,
}
use node_box.Source.Store.{Stored, Store, before, insert_sorted, sort, list, take, drop, valid_ref}

abbrev pub IsOlder : Stored → Stored → Type 0
IsOlder a b = a.modified ≤ b.modified

abbrev IsSorted : List Stored → Type 0
IsSorted [] = Unit
IsSorted (t ∷ ts) = All (IsOlder t) ts × IsSorted ts

before-true : (a b : Stored) → before a b ≡ true → IsOlder a b
unfolding before
before-true a b h = ground arith

before-false : (a b : Stored) → before a b ≡ false → IsOlder b a
unfolding before
before-false a b h = ground arith

IsOlder-all :
    (s t : Stored) (ts : List Stored) → IsOlder s t → All (IsOlder t) ts → All (IsOlder s) ts
IsOlder-all s t [] h a = tt
IsOlder-all s t (u ∷ us) h (x, a) = (omega (arith, h, x), IsOlder-all s t us h a)

All-insert_sorted :
    (s t : Stored) (ts : List Stored)
    → IsOlder s t
    → All (IsOlder s) ts
    → All (IsOlder s) (insert_sorted t ts)
unfolding insert_sorted
All-insert_sorted s t [] h a = (h, tt)
All-insert_sorted s t (u ∷ us) h (x, a) = elim (Bool-cases (before t u)) [
  | inl e ↦ rw e (h, (x, a))
  | inr e ↦ rw e (x, All-insert_sorted s t us h a)
]

insert_sorted-IsSorted :
    (t : Stored) (ts : List Stored) → IsSorted ts → IsSorted (insert_sorted t ts)
unfolding insert_sorted
insert_sorted-IsSorted t [] h = (tt, tt)
insert_sorted-IsSorted t (u ∷ us) (a, h) = elim (Bool-cases (before t u)) [
  | inl e ↦ let le = before-true t u e in rw e ((le, IsOlder-all t u us le a), (a, h))
  | inr e ↦ rw e (All-insert_sorted u t us (before-false t u e) a, insert_sorted-IsSorted t us h)
]

sort-IsSorted : (ts : List Stored) → IsSorted (sort ts)
unfolding sort
sort-IsSorted [] = tt
sort-IsSorted (t ∷ ts) = insert_sorted-IsSorted t (sort ts) (sort-IsSorted ts)

In-behind : (n : ℕ) (s : Stored) (ts : List Stored) → In s (drop n ts) → In s ts
unfolding drop
In-behind n s [] i = i
In-behind ℕ.zero s (t ∷ ts) i = i
In-behind (suc n) s (t ∷ ts) i = inr (In-behind n s ts i)

cut_sorted :
    (n : ℕ) (s t : Stored) (ts : List Stored)
    → IsSorted ts
    → In t (take n ts)
    → In s (drop n ts)
    → IsOlder t s
unfolding take drop
cut_sorted n s t [] h i j = absurd i
cut_sorted ℕ.zero s t (u ∷ us) h i j = absurd i
cut_sorted (suc n) s t (u ∷ us) (a, h) (inl e) j =
    subst (λ (x : Stored). IsOlder x s) (sym e) (All-In (IsOlder u) us s a (In-behind n s us j))
cut_sorted (suc n) s t (u ∷ us) (a, h) (inr i) j = cut_sorted n s t us h i j

-- What stands before a cut of the list was modified no later than what stands behind it.
pub list-cut :
    (store : Store) (n : ℕ) (s t : Stored)
    → In t (take n (list store))
    → In s (drop n (list store))
    → IsOlder t s
unfolding list
list-cut store n s t i j =
    cut_sorted n s t (list store) (sort-IsSorted (select (λ s. valid_ref s.ref) store.snapshots)) i
      j
