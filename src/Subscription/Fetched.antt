-- ===== src/Subscription/Fetched.antt =====
-- FetchAll of internal/subscription/fetcher.go: what it returns.
use node_box.Prelude.{
  ℕ, suc, ◌+◌, ◌≤◌, String, ◌≡◌, ◌≢◌, ◌⊎◌, ◌∙◌, refl, sym, subst, inl, inr, Option, none, some,
  List, [], ◌∷◌, map, arith, eq_iff, Bool-cases, Result, ok, err, length, length-append, eqb, All,
  In, In-map, Names, IsDistinct, Dict, lookup, lookup-insert,
}
use node_box.Node.{Node}
use node_box.Model.{NodesConfig, Subscription}
use node_box.Subscription.{
  FetchOne, Fetching, FetchError, all_failed, enabled, add_result, collect, settle, fetch_enabled,
  fetch_all,
}

abbrev pub names : List Subscription → Names
names subs = map (λ (s : Subscription). s.name) subs

-- what a successful fetch delivers
abbrev pub delivered : Result String (List Node) → Option (List Node)
delivered (ok ns) = some ns
delivered (err _) = none

abbrev fails : Result String (List Node) → ℕ
fails (ok _) = 0
fails (err _) = 1

module _ (fetch : FetchOne) where
  abbrev failures : List Subscription → ℕ
  failures [] = 0
  failures (s ∷ ss) = fails (fetch s) + failures ss

  failures-le : (ss : List Subscription) → failures ss ≤ length ss
  failures-le [] = omega arith
  failures-le (s ∷ ss) = go (fetch s) (failures-le ss)
    where
      go :
          (r : Result String (List Node))
          → failures ss ≤ length ss
          → fails r + failures ss ≤ suc (length ss)
      go (ok _) le = omega (arith, le)
      go (err _) le = omega (arith, le)

  length-failed :
      (f : Fetching) (ss : List Subscription)
      → length (collect fetch f ss).failed ≡ length f.failed + failures ss
  unfolding collect add_result
  length-failed f [] = omega arith
  length-failed f (s ∷ ss) = go (fetch s) (λ g. length-failed g ss)
    where
      go :
          (r : Result String (List Node))
          → ((g : Fetching) → length (collect fetch g ss).failed ≡ length g.failed + failures ss)
          → length (collect fetch (add_result s f r) ss).failed
            ≡ length f.failed + (fails r + failures ss)
      go (ok ns) ih = omega (arith, ih (add_result s f (ok ns)))
      go (err m) ih =
          omega (arith, ih (add_result s f (err m)), length-append f.failed (s.name ∷ []))

  abbrev pub IsFailed : Subscription → Type 0
  IsFailed s = (message : String) × (fetch s ≡ err message)

  All-fail : (ss : List Subscription) → failures ss ≡ length ss → All IsFailed ss
  All-fail [] h = tt
  All-fail (s ∷ ss) h = go (fetch s) refl h (All-fail ss)
    where
      go :
          (r : Result String (List Node))
          → fetch s ≡ r
          → fails r + failures ss ≡ suc (length ss)
          → (failures ss ≡ length ss → All IsFailed ss)
          → All IsFailed (s ∷ ss)
      go (ok ns) q k ih = absurd (omega (arith, failures-le ss, k))
      go (err m) q k ih = ((m, q), ih (omega (arith, k)))

  some_succeed :
      (ss : List Subscription)
      → failures ss ≢ length ss
      → (s : Subscription) × In s ss × (ns : List Node) × (fetch s ≡ ok ns)
  some_succeed [] h = absurd (h refl)
  some_succeed (s ∷ ss) h = go (fetch s) refl h (some_succeed ss)
    where
      go :
          (r : Result String (List Node))
          → fetch s ≡ r
          → (¬ (fails r + failures ss ≡ suc (length ss)))
          → ((failures ss ≢ length ss)
              → (x : Subscription) × In x ss × (ns : List Node) × (fetch x ≡ ok ns))
          → (x : Subscription) × In x (s ∷ ss) × (ns : List Node) × (fetch x ≡ ok ns)
      go (ok ns) q k ih = (s, inl refl, ns, q)
      go (err m) q k ih = let (x, i, ns, f) = ih (λ e. k (omega (arith, e))) in (x, inr i, ns, f)

  -- A name that is none of the list's keeps its entry.
  lookup-collect_other :
      (f : Fetching) (ss : List Subscription) (k : String)
      → (¬ In k (names ss))
      → lookup k (collect fetch f ss).out ≡ lookup k f.out
  unfolding collect add_result
  lookup-collect_other f [] k n = refl
  lookup-collect_other f (s ∷ ss) k n =
      go (fetch s) (λ g. lookup-collect_other g ss k (λ i. n (inr i)))
    where
      go :
          (r : Result String (List Node))
          → ((g : Fetching) → lookup k (collect fetch g ss).out ≡ lookup k g.out)
          → lookup k (collect fetch (add_result s f r) ss).out ≡ lookup k f.out
      go (err m) ih = ih (add_result s f (err m))
      go (ok ns) ih =
          let ne = λ (e : s.name ≡ k). n (inl (sym e)) in
          ih (add_result s f (ok ns))
          ∙ ground (arith, lookup-insert s.name k ns f.out, eq_iff s.name k)

  lookup-collect :
      (f : Fetching) (ss : List Subscription)
      → IsDistinct (names ss)
      → ((s : Subscription) → In s ss → lookup s.name f.out ≡ none)
      → (s : Subscription) → In s ss
      → lookup s.name (collect fetch f ss).out ≡ delivered (fetch s)
  unfolding collect add_result
  lookup-collect f (t ∷ ss) d new s (inl e) =
      subst
        (λ x. lookup x.name (collect fetch (add_result t f (fetch t)) ss).out ≡ delivered (fetch x))
        (sym e) (lookup-collect_other (add_result t f (fetch t)) ss t.name d.0 ∙ own (fetch t))
    where
      own : (r : Result String (List Node)) → lookup t.name (add_result t f r).out ≡ delivered r
      own (err m) = new t (inl refl)
      own (ok ns) = ground (arith, lookup-insert t.name t.name ns f.out, eq_iff t.name t.name)
  lookup-collect f (t ∷ ss) d new s (inr i) =
      lookup-collect (add_result t f (fetch t)) ss d.1 (λ x j. later (fetch t) x j) s i
    where
      later :
          (r : Result String (List Node)) (x : Subscription)
          → In x ss
          → lookup x.name (add_result t f r).out ≡ none
      later (err m) x j = new x (inr j)
      later (ok ns) x j =
          let ne = λ (e : t.name ≡ x.name).
            d.0 (
              subst (λ n. In n (names ss)) (sym e)
                (In-map (λ (s : Subscription). s.name) x ss j)) in
          ground (arith, lookup-insert t.name x.name ns f.out, eq_iff t.name x.name, new x (inr j))
  lookup-collect f [] d new s i = absurd i

  -- Each subscription that delivers has its nodes, each that fails has none; not all fail unless
  -- there is none. Or all fail, and there is one.
  abbrev pub IsFetched : List Subscription → Result FetchError (Dict (List Node)) → Type 0
  IsFetched subs (ok out) =
      ((s : Subscription) → In s subs → lookup s.name out ≡ delivered (fetch s))
      × ((subs ≡ []) ⊎ ((s : Subscription) × In s subs × (ns : List Node) × (fetch s ≡ ok ns)))
  IsFetched subs (err (all_failed failed)) = (subs ≢ []) × All IsFailed subs

  settle-IsFetched :
      (s : Subscription) (ss : List Subscription)
      → IsDistinct (names (s ∷ ss))
      → IsFetched
          (s ∷ ss)
          (settle (s ∷ ss) (collect fetch (record { out = []; failed = [] }) (s ∷ ss)))
  unfolding settle lookup
  settle-IsFetched s ss d =
      let n = length-failed (record { out = []; failed = [] }) (s ∷ ss) in
      elim (Bool-cases (
        eqb (length (collect fetch (record { out = []; failed = [] }) (s ∷ ss)).failed)
          (length (s ∷ ss)))) [
            | inl e ↦ rw e ((λ q. cc), All-fail (s ∷ ss) (ground (arith, n)))
            | inr e ↦ rw e (
              lookup-collect (record { out = []; failed = [] }) (s ∷ ss) d (λ x i. refl),
              inr (some_succeed (s ∷ ss) (λ q. ground (arith, n, q))),
            )
          ]

  fetch_enabled-IsFetched :
      (subs : List Subscription)
      → IsDistinct (names subs)
      → IsFetched subs (fetch_enabled fetch subs)
  unfolding fetch_enabled
  fetch_enabled-IsFetched [] d = ((λ s i. absurd i), inl refl)
  fetch_enabled-IsFetched (s ∷ ss) d = settle-IsFetched s ss d

-- Where the enabled subscriptions have distinct names: FetchAll returns the nodes of each that
-- delivers and nothing for each that fails, and then one delivers or none is enabled; or it fails,
-- and then some are enabled and all of them failed.
pub fetch_all-IsFetched :
    (fetch : FetchOne) (n : NodesConfig)
    → IsDistinct (names (enabled n.subscriptions))
    → IsFetched fetch (enabled n.subscriptions) (fetch_all fetch n)
unfolding fetch_all
fetch_all-IsFetched fetch n d = fetch_enabled-IsFetched fetch (enabled n.subscriptions) d
