-- ===== src/Source/Store/Sorted.antt =====
-- List of internal/source/store.go against what is stored.
use node_box.Prelude.{
  ℕ, suc, String, ◌≡◌, ◌∙◌, ap, sym, subst, ◌⊎◌, inl, inr, Bool, List, [], ◌∷◌, In, IsDistinct,
  Bool-cases, select, In-select_inv, In-map, In-map_inv,
}
use node_box.Source.Store.{
  Stored, Store, before, insert_sorted, sort, list, refs, take, drop, valid_ref,
}

In-insert_sorted : (s t : Stored) (ts : List Stored) → (s ≡ t) ⊎ In s ts → In s (insert_sorted t ts)
unfolding insert_sorted
In-insert_sorted s t [] i = i
In-insert_sorted s t (u ∷ us) i = elim (Bool-cases (before t u)) [
  | inl b ↦ rw b i
  | inr b ↦ rw b (elim i [
    | inl e ↦ inr (In-insert_sorted s t us (inl e))
    | inr (inl e) ↦ inl e
    | inr (inr j) ↦ inr (In-insert_sorted s t us (inr j))
  ])
]

In-insert_sorted_inv :
    (s t : Stored) (ts : List Stored) → In s (insert_sorted t ts) → (s ≡ t) ⊎ In s ts
unfolding insert_sorted
In-insert_sorted_inv s t [] i = i
In-insert_sorted_inv s t (u ∷ us) i = elim (Bool-cases (before t u)) [
  | inl b ↦ rw b at i
  | inr b ↦ elim (let j : (s ≡ u) ⊎ In s (insert_sorted t us) = rw b at i in j) [
    | inl e ↦ inr (inl e)
    | inr j ↦ elim (In-insert_sorted_inv s t us j) [ inl e ↦ inl e | inr k ↦ inr (inr k) ]
  ]
]

pub In-sort : (s : Stored) (ts : List Stored) → In s ts → In s (sort ts)
unfolding sort
In-sort s (t ∷ ts) (inl e) = In-insert_sorted s t (sort ts) (inl e)
In-sort s (t ∷ ts) (inr i) = In-insert_sorted s t (sort ts) (inr (In-sort s ts i))
In-sort s [] i = elim i [ ]

pub In-sort_inv : (s : Stored) (ts : List Stored) → In s (sort ts) → In s ts
unfolding sort
In-sort_inv s [] i = i
In-sort_inv s (t ∷ ts) i = elim (In-insert_sorted_inv s t (sort ts) i) [
  | inl e ↦ inl e
  | inr j ↦ inr (In-sort_inv s ts j)
]

-- A ref that stands in the list comes from an element.
pub In-refs_inv :
    (r : String) (ts : List Stored) → In r (refs ts) → (t : Stored) × In t ts × (r ≡ t.ref)
unfolding refs
In-refs_inv r ts i = In-map_inv (λ s. s.ref) r ts i

pub In-refs : (t : Stored) (ts : List Stored) → In t ts → In t.ref (refs ts)
unfolding refs
In-refs t ts i = In-map (λ s. s.ref) t ts i

pub In-list_inv : (s : Stored) (store : Store) → In s (list store) → In s store.snapshots
unfolding list
In-list_inv s store i =
    (In-select_inv (λ s. valid_ref s.ref) s store.snapshots (In-sort_inv s _ i)).0

IsDistinct-insert :
    (t : Stored) (ts : List Stored)
    → IsDistinct (refs ts)
    → (¬ In t.ref (refs ts))
    → IsDistinct (refs (insert_sorted t ts))
unfolding insert_sorted refs
IsDistinct-insert t [] d new = (new, tt)
IsDistinct-insert t (u ∷ us) d new = elim (Bool-cases (before t u)) [
  | inl b ↦ rw b (new, d)
  | inr b ↦ rw b (
    λ i.
        let (s, j, e) = In-refs_inv u.ref (insert_sorted t us) i in
        elim (In-insert_sorted_inv s t us j) [
          | inl q ↦ new (inl (sym (e ∙ ap (λ (x : Stored). x.ref) q)))
          | inr k ↦ d.0 (subst (λ x. In x (refs us)) (sym e) (In-refs s us k))
        ],
    IsDistinct-insert t us d.1 (λ i. new (inr i)),
  )
]

IsDistinct-sort : (ts : List Stored) → IsDistinct (refs ts) → IsDistinct (refs (sort ts))
unfolding sort refs
IsDistinct-sort [] d = tt
IsDistinct-sort (t ∷ ts) d = IsDistinct-insert t (sort ts) (IsDistinct-sort ts d.1) (λ i.
    let (s, j, e) = In-refs_inv t.ref (sort ts) i in
    d.0 (subst (λ x. In x (refs ts)) (sym e) (In-refs s ts (In-sort_inv s ts j))))

IsDistinct-select :
    (p : Stored → Bool) (ts : List Stored) → IsDistinct (refs ts) → IsDistinct (refs (select p ts))
unfolding select refs
IsDistinct-select p [] d = tt
IsDistinct-select p (t ∷ ts) d = elim (Bool-cases (p t)) [
  | inl b ↦ rw b (
    λ i.
        let (s, j, e) = In-refs_inv t.ref (select p ts) i in
        d.0 (subst (λ x. In x (refs ts)) (sym e) (In-refs s ts (In-select_inv p s ts j).0)),
    IsDistinct-select p ts d.1,
  )
  | inr b ↦ rw b (IsDistinct-select p ts d.1)
]

pub IsDistinct-list :
    (store : Store) → IsDistinct (refs store.snapshots) → IsDistinct (refs (list store))
unfolding list
IsDistinct-list store d =
    IsDistinct-sort _ (IsDistinct-select (λ s. valid_ref s.ref) store.snapshots d)

In-drop : (n : ℕ) (s : Stored) (ts : List Stored) → In s (drop n ts) → In s ts
unfolding drop
In-drop n s [] i = i
In-drop ℕ.zero s (t ∷ ts) i = i
In-drop (suc n) s (t ∷ ts) i = inr (In-drop n s ts i)

-- No name stands both before and behind a cut.
pub cut_apart :
    (n : ℕ) (s : Stored) (ts : List Stored)
    → IsDistinct (refs ts)
    → In s (drop n ts)
    → ¬ In s.ref (refs (take n ts))
unfolding drop take refs
cut_apart n s [] d i j = i
cut_apart ℕ.zero s (t ∷ ts) d i j = j
cut_apart (suc n) s (t ∷ ts) d i (inl e) =
    d.0 (subst (λ x. In x (refs ts)) e (In-refs s ts (In-drop n s ts i)))
cut_apart (suc n) s (t ∷ ts) d i (inr j) = cut_apart n s ts d.1 i j
