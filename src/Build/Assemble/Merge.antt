-- ===== src/Build/Assemble/Merge.antt =====
-- assemble of internal/build/assemble.go: how a merged document relates to its modules.
use node_box.Prelude.{
  String, ◌≡◌, ◌⊎◌, refl, sym, subst, inl, inr, false, Option, none, some, List, [], ◌∷◌, arith,
  ◌==◌, eq_iff, Bool-cases, Result, ok, err, >>=-eq-ok, fold_each, In, Dict, lookup, insert,
  lookup-insert,
}
use node_box.Json.{Json, Fields, end, field, get, put, get-put}
use node_box.Build.Errors.{ModuleError}
use node_box.Build.Assemble.{
  Unmarshal, decode_module, Assembly, add_key, add_section, add_decoded, add_loaded, add_module,
  assemble,
}

-- `name` is loaded, and its file holds the object `section`.
pub record Provides (unmarshal : Unmarshal) (modules : Dict String) (name : String)
    (section : Fields) : Type 0 where
  pub raw : String
  pub loaded : lookup name modules ≡ some raw
  pub decoded : decode_module unmarshal raw ≡ ok section

-- Every key of the document has an owner.
abbrev IsOwned : Assembly → Type 0
IsOwned s =
    (k : String) (v : Json) → get k s.doc ≡ some v → (a : String) × (lookup k s.owner ≡ some a)

-- `t` is `s` with the keys of `m` added.
record Extends (s t : Assembly) (m : Fields) : Type 0 where
  owned : IsOwned t
  kept : (k : String) (v : Json) → get k s.doc ≡ some v → get k t.doc ≡ some v
  added : (k : String) (v : Json) → get k m ≡ some v → get k t.doc ≡ some v
  only :
      (k : String) (v : Json) → get k t.doc ≡ some v → (get k s.doc ≡ some v) ⊎ (get k m ≡ some v)

add_key-ok :
    (name : String) (s : Assembly) (k : String) (v : Json) (t : Assembly)
    → add_key name s k v ≡ ok t
    → (lookup k s.owner ≡ none) × (t.doc ≡ put k v s.doc) × (t.owner ≡ insert k name s.owner)
unfolding add_key
add_key-ok name s k v t h = ground arith

-- What one key does to the document and to its owners, in terms of lookups.
record Adds (s t : Assembly) (name k : String) (v : Json) : Type 0 where
  new : lookup k s.owner ≡ none
  self : get k t.doc ≡ some v
  other : (j : String) → (k == j) ≡ false → get j t.doc ≡ get j s.doc
  owner_self : lookup k t.owner ≡ some name
  owner_other : (j : String) → (k == j) ≡ false → lookup j t.owner ≡ lookup j s.owner

add_key-Adds :
    (name : String) (s : Assembly) (k : String) (v : Json) (t : Assembly)
    → add_key name s k v ≡ ok t
    → Adds s t name k v
add_key-Adds name s k v t h =
    let (new, doc, owner) = add_key-ok name s k v t h in
    record {
      new = new;
      self = rw (doc, get-put) (ground (arith, eq_iff k k));
      other = λ j ne. rw (doc, get-put) (rw ne refl);
      owner_self = rw (owner, lookup-insert) (ground (arith, eq_iff k k));
      owner_other = λ j ne. rw (owner, lookup-insert) (rw ne refl);
    }

module _ {s u : Assembly} {name k : String} {v : Json} (a : Adds s u name k v) where
  Adds-IsOwned : IsOwned s → IsOwned u
  Adds-IsOwned o j w g = elim (Bool-cases (k == j)) [
    | inl e ↦ (name, subst (λ x. lookup x u.owner ≡ some name) ((eq_iff k j).0 e) a.owner_self)
    | inr e ↦ let (b, l) = o j w (rw (a.other j e) at g) in (b, rw (a.owner_other j e) l)
  ]

  Adds-kept : IsOwned s → (j : String) (w : Json) → get j s.doc ≡ some w → get j u.doc ≡ some w
  Adds-kept o j w g = elim (Bool-cases (k == j)) [
    | inl e ↦ let (b, l) = o j w g in cc (l, a.new, (eq_iff k j).0 e)
    | inr e ↦ rw (a.other j e) g
  ]

  Adds-Extends : {t : Assembly} {m : Fields} → IsOwned s → Extends u t m → Extends s t (field k v m)
  unfolding get
  Adds-Extends {t} {m} o x = record {
    owned = x.owned;
    kept = λ j w g. x.kept j w (Adds-kept o j w g);
    added = λ j w g. elim (Bool-cases (k == j)) [
      | inl e ↦
          subst (λ y. get y t.doc ≡ some w) ((eq_iff k j).0 e) (x.kept k w (ground (arith, a.self)))
      | inr e ↦ x.added j w (ground arith)
    ];
    only = λ j w g. elim (Bool-cases (k == j)) [
      | inl e ↦ let same = (eq_iff k j).0 e in inr (rw e (cc (x.kept k v a.self, same)))
      | inr e ↦ elim (x.only j w g) [ inl p ↦ inl (rw (a.other j e) at p) | inr p ↦ inr (rw e p) ]
    ];
  }

add_section-Extends :
    (name : String) (m : Fields) (s t : Assembly)
    → IsOwned s
    → add_section name s m ≡ ok t
    → Extends s t m
unfolding add_section get
add_section-Extends name end s t o h =
    let same : s ≡ t = ground arith in
    record {
      owned = subst IsOwned same o;
      kept = λ k v g. subst (λ x. get k x.doc ≡ some v) same g;
      added = λ k v g. cc;
      only = λ k v g. inl (subst (λ x. get k x.doc ≡ some v) (sym same) g);
    }
add_section-Extends name (field k v m) s t o h =
    let (u, e, rest) = >>=-eq-ok (add_key name s k v) _ h in
    let a = add_key-Adds name s k v u e in
    Adds-Extends a o (add_section-Extends name m u t (Adds-IsOwned a o) rest)

module _ (unmarshal : Unmarshal) (modules : Dict String) where
  add_module-ok :
      (s t : Assembly) (name : String)
      → add_module unmarshal modules s name ≡ ok t
      → (m : Fields) × Provides unmarshal modules name m × (add_section name s m ≡ ok t)
  unfolding add_module
  add_module-ok s t name h = go (lookup name modules) refl h
    where
      decoded :
          (raw : String) (r : Result ModuleError Fields)
          → lookup name modules ≡ some raw
          → decode_module unmarshal raw ≡ r
          → add_decoded name s r ≡ ok t
          → (m : Fields) × Provides unmarshal modules name m × (add_section name s m ≡ ok t)
      decoded raw (ok m) l d q = (m, record { raw = raw; loaded = l; decoded = d }, q)
      decoded raw (err e) l d q = cc

      go :
          (o : Option String)
          → lookup name modules ≡ o
          → add_loaded unmarshal name s o ≡ ok t
          → (m : Fields) × Provides unmarshal modules name m × (add_section name s m ≡ ok t)
      go none l q = cc
      go (some raw) l q = decoded raw (decode_module unmarshal raw) l refl q

  -- `t` is `s` with every key of the modules `names` added.
  record Merges (s t : Assembly) (names : List String) : Type 0 where
    owned : IsOwned t
    kept : (k : String) (v : Json) → get k s.doc ≡ some v → get k t.doc ≡ some v
    added :
        (name : String)
        → In name names
        → (m : Fields) × Provides unmarshal modules name m
          × ((k : String) (v : Json) → get k m ≡ some v → get k t.doc ≡ some v)
    only :
        (k : String) (v : Json)
        → get k t.doc ≡ some v
        → (get k s.doc ≡ some v)
          ⊎ ((name : String) × In name names
              × (m : Fields) × Provides unmarshal modules name m
              × (get k m ≡ some v))

  modules-Merges :
      (names : List String) (s t : Assembly)
      → IsOwned s
      → fold_each (add_module unmarshal modules) s names ≡ ok t
      → Merges s t names
  modules-Merges [] s t o h =
      let same : s ≡ t = ground arith in
      record {
        owned = subst IsOwned same o;
        kept = λ k v g. subst (λ x. get k x.doc ≡ some v) same g;
        added = λ name i. absurd i;
        only = λ k v g. inl (subst (λ x. get k x.doc ≡ some v) (sym same) g);
      }
  modules-Merges (name ∷ names) s t o h =
      let (u, e, rest) = >>=-eq-ok (add_module unmarshal modules s name) _ h in
      let (m, p, q) = add_module-ok s u name e in
      let x = add_section-Extends name m s u o q in
      let y = modules-Merges names u t x.owned rest in
      record {
        owned = y.owned;
        kept = λ k v g. y.kept k v (x.kept k v g);
        added = λ n i. elim i [
          | inl same ↦ (
            m,
            subst (λ z. Provides unmarshal modules z m) (sym same) p,
            λ k v g. y.kept k v (x.added k v g),
          )
          | inr j ↦ y.added n j
        ];
        only = λ k v g. elim (y.only k v g) [
          | inl d ↦ elim (x.only k v d) [ inl b ↦ inl b | inr b ↦ inr (name, inl refl, m, p, b) ]
          | inr (n, i, m', p', b) ↦ inr (n, inr i, m', p', b)
        ];
      }

  -- The document holds each key of each listed module with its value, and no other key.
  pub record IsMerge (doc : Fields) (names : List String) : Type 0 where
    pub complete :
        (name : String)
        → In name names
        → (m : Fields) × Provides unmarshal modules name m
          × ((k : String) (v : Json) → get k m ≡ some v → get k doc ≡ some v)
    pub sound :
        (k : String) (v : Json)
        → get k doc ≡ some v
        → (name : String) × In name names
          × (m : Fields) × Provides unmarshal modules name m
          × (get k m ≡ some v)

  -- A document that assemble returns loses no section of a listed module and invents none.
  pub assemble-IsMerge :
      (names : List String) (doc : Fields)
      → assemble unmarshal modules names ≡ ok doc
      → IsMerge doc names
  unfolding assemble get
  assemble-IsMerge names doc h =
      let start : Assembly = record { doc = end; owner = [] } in
      let (s, e, q) = >>=-eq-ok (fold_each (add_module unmarshal modules) start names) _ h in
      let x = modules-Merges names start s (λ k v g. cc) e in
      let same : s.doc ≡ doc = ground arith in
      record {
        complete = λ n i.
            let (m, p, f) = x.added n i in
            (m, p, λ k v g. subst (λ d. get k d ≡ some v) same (f k v g));
        sound = λ k v g. elim (x.only k v (subst (λ d. get k d ≡ some v) (sym same) g)) [
          | inl b ↦ absurd (cc b)
          | inr b ↦ b
        ];
      }
