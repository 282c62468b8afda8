-- ===== src/Source/Snapshot/Acquired.antt =====
-- Acquire of internal/source/snapshot.go: what it returns and what it leaves of the store.
use node_box.Prelude.{
  ℕ, String, ◌≡◌, ◌≢◌, ◌⊎◌, refl, ap, sym, subst, inl, inr, true, false, Option, none, some, List,
  [], ◌∷◌, ◌++◌, arith, ◌==◌, eq_iff, Bool-cases, Result, ok, err, In-append_right, In→has, has,
  eq_false→ne,
}
use node_box.Model.{Config}
use node_box.Model.Validate
use node_box.Model.Validate.{validate}
use node_box.Model.Validate.Spec.{IsValid}
use node_box.Model.Validate.Exact.{validate_iff}
use node_box.Source.Store.{Store, Stored, StoreHost, has_snapshot, valid_ref, commit, refs}
use node_box.Source.Store.Sorted.{In-refs}
use node_box.Source.Snapshot.{
  Decode, OpenError, AcquireError, Snapshot, Source, checked, load_decoded, open_config,
  config_text, opened, open_stored, committed, commit_usable, commit_fetched, acquire_ref,
  acquire_resolved, acquire,
}

module _ (decode : Decode) where
  -- The configuration is a valid one that a text decodes to.
  abbrev pub IsRead : Option String → Config → Type 0
  IsRead content c = (text : String) × (content ≡ some text) × (decode text ≡ some c) × IsValid c

  open_config-IsRead :
      (content : Option String) (c : Config) → open_config decode content ≡ ok c → IsRead content c
  unfolding open_config load_decoded checked
  open_config-IsRead none c h = cc
  open_config-IsRead (some text) c h = go (decode text) refl h
    where
      valid :
          (b : Config) (r : Result Validate.Error (Unit {0}))
          → validate b ≡ r
          → checked decode b r ≡ ok c
          → (b ≡ c) × IsValid b
      valid b (ok t) e q = (ground arith, (validate_iff b).0 e)
      valid b (err e') e q = cc

      go :
          (o : Option Config)
          → decode text ≡ o
          → load_decoded decode o ≡ ok c
          → IsRead (some text) c
      go none e q = cc
      go (some b) e q =
          let (same, v) = valid b (validate b) refl q in
          (text, refl, subst (λ x. decode text ≡ some x) same e, subst IsValid same v)

  -- `after` is `store`, or `store` with one snapshot more, of this ref and of what was fetched.
  abbrev pub IsExtended : Store → Store → String → Option String → ℕ → Type 0
  IsExtended store after ref text now =
      (has_snapshot store ref ≡ false)
      × (after ≡ record store {
        snapshots = store.snapshots ++ record { ref = ref; modified = now; config = text } ∷ [];
      })

  abbrev pub IsAcquiredRef :
      Source → ℕ → Store → String → Store × Result AcquireError Snapshot → Type 0
  IsAcquiredRef source now store ref (after, ok snap) =
      (snap.ref ≡ ref)
      × (has_snapshot after ref ≡ true)
      × IsRead (config_text ref after.snapshots) snap.config
      × ((after ≡ store)
          ⊎ ((text : Option String) × (source.materialize ref ≡ some text)
              × IsExtended store after ref text now))
  IsAcquiredRef source now store ref (after, err e) = after ≡ store

  -- The ref that a request is for: the source's own where the request names none.
  abbrev pub IsRequested : Source → String → String → Type 0
  IsRequested source ref r = ((ref ≢ "") × (r ≡ ref)) ⊎ ((ref ≡ "") × (source.resolve ≡ some r))

  -- On success the snapshot is the requested one, stored, and its configuration is valid and what
  -- its config.json holds; the store is as before or has this snapshot in addition, as the source
  -- delivered it. On failure the store is as before.
  abbrev pub IsAcquired :
      Source → ℕ → Store → String → Store × Result AcquireError Snapshot → Type 0
  IsAcquired source now store ref (after, ok snap) =
      IsRequested source ref snap.ref
      × (has_snapshot after snap.ref ≡ true)
      × IsRead (config_text snap.ref after.snapshots) snap.config
      × ((after ≡ store)
          ⊎ ((text : Option String) × (source.materialize snap.ref ≡ some text)
              × IsExtended store after snap.ref text now))
  IsAcquired source now store ref (after, err e) = after ≡ store

  pub open_stored-ok :
      (store : Store) (ref : String) (snap : Snapshot)
      → open_stored decode store ref ≡ ok snap
      → (snap.ref ≡ ref) × IsRead (config_text ref store.snapshots) snap.config
  unfolding open_stored opened
  open_stored-ok store ref snap h = go (open_config decode (config_text ref store.snapshots)) refl h
    where
      go :
          (r : Result OpenError Config)
          → open_config decode (config_text ref store.snapshots) ≡ r
          → opened decode ref r ≡ ok snap
          → (snap.ref ≡ ref) × IsRead (config_text ref store.snapshots) snap.config
      go (err e) p q = cc
      go (ok c) p q =
          let same : record { ref = ref; config = c } ≡ snap = ground arith in
          (
            sym (ap (λ (s : Snapshot). s.ref) same),
            subst (λ (s : Snapshot). IsRead (config_text ref store.snapshots) s.config) same
                (open_config-IsRead _ c p),
          )

  config_text-appended :
      (ref : String) (ss : List Stored) (s : Stored)
      → has ref (refs ss) ≡ false
      → s.ref ≡ ref
      → config_text ref (ss ++ s ∷ []) ≡ s.config
  unfolding config_text refs has
  config_text-appended ref [] s h e = ground (arith, eq_iff s.ref ref)
  config_text-appended ref (t ∷ ss) s h e =
      let later : has ref (refs ss) ≡ false = ground arith in
      ground (arith, config_text-appended ref ss s later e)

  module _ (source : Source) (now : ℕ) (host : StoreHost) (store : Store) (ref : String) where
    extended : Option String → Store
    extended text = record store {
      snapshots = store.snapshots ++ record { ref = ref; modified = now; config = text } ∷ [];
    }

    has_snapshot-extended :
        (text : Option String) → valid_ref ref ≡ true → has_snapshot (extended text) ref ≡ true
    unfolding has_snapshot extended
    has_snapshot-extended text v =
        let new : Stored = record { ref = ref; modified = now; config = text } in
        let i =
          In-refs new (store.snapshots ++ new ∷ [])
            (In-append_right new store.snapshots (new ∷ []) (inl refl)) in
        rw (v, In→has ref (refs (store.snapshots ++ new ∷ [])) i) refl

    stored_as_is :
        (r : Result AcquireError Snapshot)
        → open_stored decode store ref ≡ r
        → has_snapshot store ref ≡ true
        → IsAcquiredRef source now store ref (store, r)
    stored_as_is (err e) q h = refl
    stored_as_is (ok snap) q h = let (a, b) = open_stored-ok store ref snap q in (a, h, b, inl refl)

    reopened :
        (text : Option String) (c : Config)
        → has_snapshot store ref ≡ false
        → valid_ref ref ≡ true
        → open_config decode text ≡ ok c
        → open_stored decode (extended text) ref ≡ ok (record { ref = ref; config = c })
    unfolding open_stored extended has_snapshot opened
    reopened text c h v q =
        let new : Stored = record { ref = ref; modified = now; config = text } in
        let absent : has ref (refs store.snapshots) ≡ false = ground arith in
        rw (config_text-appended ref store.snapshots new absent refl, q) refl

    became :
        (text : Option String) (c : Config)
        → open_stored decode (extended text) ref ≡ ok (record { ref = ref; config = c })
        → IsAcquiredRef source now store ref (extended text, ok (record { ref = ref; config = c }))
        → IsAcquiredRef source now store ref (extended text, open_stored decode (extended text) ref)
    became text c made acquired = rw made acquired

    fetched_new :
        (text : Option String)
        → source.materialize ref ≡ some text
        → has_snapshot store ref ≡ false
        → valid_ref ref ≡ true
        → (r : Result OpenError Config) → open_config decode text ≡ r
        → IsAcquiredRef source now store ref (commit_usable decode host source now store ref text r)
    unfolding commit_usable committed commit extended
    fetched_new text m h v (err e) q = refl
    fetched_new text m h v (ok c) q = elim (Bool-cases (host.refuses_rename ref)) [
      | inl f ↦ rw (h, f) refl
      | inr f ↦
          let made = reopened text c h v q in
          let (a, b) = open_stored-ok (extended text) ref (record { ref = ref; config = c }) made in
          rw (h, f)
            (became text c made (a, has_snapshot-extended text v, b, inr (text, m, (h, refl))))
    ]

    fetched :
        (o : Option (Option String))
        → source.materialize ref ≡ o
        → has_snapshot store ref ≡ false
        → valid_ref ref ≡ true
        → IsAcquiredRef source now store ref (commit_fetched decode host source now store ref o)
    unfolding commit_fetched
    fetched none m h v = refl
    fetched (some text) m h v = fetched_new text m h v (open_config decode text) refl

    acquire_ref-IsAcquiredRef :
        IsAcquiredRef source now store ref (acquire_ref decode host source now store ref)
    unfolding acquire_ref commit
    acquire_ref-IsAcquiredRef = elim (Bool-cases (has_snapshot store ref)) [
      | inl h ↦ rw h (stored_as_is (open_stored decode store ref) refl h)
      | inr h ↦ elim (Bool-cases (valid_ref ref)) [
        | inr v ↦ rw (h, v) refl
        | inl v ↦ elim (Bool-cases host.refuses_scratch) [
          | inl f ↦ rw (h, v, f) refl
          | inr f ↦ rw (h, v, f) (fetched (source.materialize ref) refl h v)
        ]
      ]
    ]

    from_ref :
        (asked : String) (r : Store × Result AcquireError Snapshot)
        → IsRequested source asked ref
        → IsAcquiredRef source now store ref r
        → IsAcquired source now store asked r
    from_ref asked (after, err e) q a = a
    from_ref asked (after, ok snap) q (e, s, r, x) =
        let same : ref ≡ snap.ref = sym e in
        (
          subst (IsRequested source asked) same q,
          subst (λ x. has_snapshot after x ≡ true) same s,
          subst (λ x. IsRead (config_text x after.snapshots) snap.config) same r,
          subst
              (λ x.
                (after ≡ store)
                ⊎ ((text : Option String) × (source.materialize x ≡ some text)
                    × IsExtended store after x text now))
              same x,
        )

  from_source :
      (source : Source) (now : ℕ) (host : StoreHost) (store : Store) (o : Option String)
      → source.resolve ≡ o
      → IsAcquired source now store "" (acquire_resolved decode host source now store o)
  unfolding acquire_resolved
  from_source source now host store none q = refl
  from_source source now host store (some ref) q =
      from_ref source now host store ref "" _ (inr (refl, q))
        (acquire_ref-IsAcquiredRef source now host store ref)

-- Acquire, on every branch: on failure the store is as before. On success the snapshot has the ref
-- that was asked for, or the source's own where none was; it is stored, its config.json decodes to
-- a configuration that is valid; and the store is as before or has gained just this snapshot.
pub acquire-IsAcquired :
    (decode : Decode) (host : StoreHost) (source : Source) (now : ℕ) (store : Store) (ref : String)
    → IsAcquired decode source now store ref (acquire decode host source now store ref)
unfolding acquire
acquire-IsAcquired decode host source now store ref = elim (Bool-cases (ref == "")) [
  | inr f ↦ rw f (
      from_ref decode source now host store ref ref _ (inl (eq_false→ne ref "" f, refl))
        (acquire_ref-IsAcquiredRef decode source now host store ref))
  | inl t ↦
      let e : ref ≡ "" = (eq_iff ref "").0 t in
      rw t (
        subst
          (λ x.
            IsAcquired decode source now store x
              (acquire_resolved decode host source now store source.resolve))
          (sym e) (from_source decode source now host store source.resolve refl))
]
