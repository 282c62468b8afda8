-- ===== src/Build/Injector/Pool.antt =====
-- newInjector of internal/build/inject.go: the node pool and its index.
use node_box.Prelude.{
  String, ◌≡◌, ◌≢◌, refl, sym, ap, subst, ◌∙◌, inl, inr, true, none, some, List, [], ◌∷◌, ◌++◌, map,
  foldl_inv, arith, ◌==◌, eq_iff, Bool-cases, Option-cases, In, In-append_left, In-append_right,
  In-append_cases, In-map_inv, Names, IsDistinct, IsDistinct-snoc, Dict, lookup, insert,
  lookup-insert, eq_false→ne,
}
use node_box.Node
use node_box.Node.{Node}
use node_box.Model.{NodesConfig, Module, Subscription}
use node_box.Build.Injector.{Injector, nodes_at, add_node, add_subscription, fill_pool}

map-append : (xs ys : List Node) → map Node.tag (xs ++ ys) ≡ map Node.tag xs ++ map Node.tag ys
map-append [] ys = refl
map-append (x ∷ xs) ys = ap (λ (l : Names). Node.tag x ∷ l) (map-append xs ys)

-- The pool and its index agree.
pub record IsPool (inj : Injector) : Type 0 where
  pub distinct : IsDistinct (map Node.tag inj.pool)
  pub tagged : (n : Node) → In n inj.pool → Node.tag n ≢ ""
  pub indexed : (n : Node) → In n inj.pool → lookup (Node.tag n) inj.by_tag ≡ some n
  pub only :
      (t : String) (n : Node) → lookup t inj.by_tag ≡ some n → In n inj.pool × (Node.tag n ≡ t)

module _ (inj : Injector) (n : Node) (p : IsPool inj) where
  module _ (named : Node.tag n ≢ "") (new : lookup (Node.tag n) inj.by_tag ≡ none) where
    not_pooled : ¬ In (Node.tag n) (map Node.tag inj.pool)
    not_pooled i =
        let (m, j, e) = In-map_inv Node.tag (Node.tag n) inj.pool i in cc (p.indexed m j, new, e)

    IsPool-extend :
        IsPool (record inj { pool = inj.pool ++ n ∷ []; by_tag = insert (Node.tag n) n inj.by_tag })
    IsPool-extend = record {
      distinct =
          rw map-append
            (IsDistinct-snoc (map Node.tag inj.pool) (Node.tag n) p.distinct not_pooled);
      tagged = λ m i. elim (In-append_cases m inj.pool (n ∷ []) i) [
        | inl j ↦ p.tagged m j
        | inr (inl e) ↦ subst (λ x. Node.tag x ≢ "") (sym e) named
        | inr (inr b) ↦ absurd b
      ];
      indexed = λ m i. elim (In-append_cases m inj.pool (n ∷ []) i) [
        | inl j ↦ rw lookup-insert (elim (Bool-cases (Node.tag n == Node.tag m)) [
          | inl e ↦ cc (p.indexed m j, new, (eq_iff (Node.tag n) (Node.tag m)).0 e)
          | inr e ↦ rw e (p.indexed m j)
        ])
        | inr (inl e) ↦ rw (lookup-insert, e) (rw ((eq_iff (Node.tag n) (Node.tag n)).1 refl) refl)
        | inr (inr b) ↦ absurd b
      ];
      only = λ t m l. elim (Bool-cases (Node.tag n == t)) [
        | inl e ↦
            let same : n ≡ m = ground (arith, lookup-insert (Node.tag n) t n inj.by_tag) in
            (
              In-append_right m inj.pool (n ∷ []) (inl (sym same)),
              ap Node.tag (sym same) ∙ (eq_iff (Node.tag n) t).0 e,
            )
        | inr e ↦
            let (i, q) = p.only t m (ground (arith, lookup-insert (Node.tag n) t n inj.by_tag)) in
            (In-append_left m inj.pool (n ∷ []) i, q)
      ];
    }

  add_node-IsPool : IsPool (add_node inj n)
  unfolding add_node
  add_node-IsPool = elim (Bool-cases (Node.tag n == "")) [
    | inl e ↦ rw e p
    | inr e ↦ rw e (elim (Option-cases (lookup (Node.tag n) inj.by_tag)) [
      | inl l ↦ rw l (IsPool-extend (eq_false→ne (Node.tag n) "" e) l)
      | inr (m, l) ↦ rw l p
    ])
  ]

-- An enabled subscription delivered the node.
pub record IsDelivered (nodes : Dict (List Node)) (subs : List Subscription) (n : Node)
    : Type 0 where
  pub sub : Subscription
  pub declared : In sub subs
  pub enabled : sub.enable ≡ true
  pub delivered : In n (nodes_at sub.name nodes)

module _ (nodes : Dict (List Node)) (cfg : NodesConfig) where
  -- The pool is well formed and holds delivered nodes; no relay is there yet.
  pub record IsFilled (inj : Injector) : Type 0 where
    pub pooled : IsPool inj
    pub from : (n : Node) → In n inj.pool → IsDelivered nodes cfg.subscriptions n
    pub config : inj.nodes ≡ cfg
    pub no_relays : inj.relays ≡ []

  add_node-IsFilled :
      (sub : Subscription)
      → In sub cfg.subscriptions
      → sub.enable ≡ true
      → (inj : Injector) (n : Node) → In n (nodes_at sub.name nodes)
      → IsFilled inj
      → IsFilled (add_node inj n)
  unfolding add_node
  add_node-IsFilled sub i on inj n d f =
      let pooled = add_node-IsPool inj n f.pooled in
      elim (Bool-cases (Node.tag n == "")) [
        | inl e ↦ rw e f
        | inr e ↦ elim (Option-cases (lookup (Node.tag n) inj.by_tag)) [
          | inr (m, l) ↦ rw (e, l) f
          | inl l ↦
              rw (e, l)
                (record {
                  pooled = rw (e, l) at pooled;
                  from = λ m j. elim (In-append_cases m inj.pool (n ∷ []) j) [
                    | inl k ↦ f.from m k
                    | inr (inl q) ↦ record {
                      sub = sub;
                      declared = i;
                      enabled = on;
                      delivered = subst (λ x. In x (nodes_at sub.name nodes)) (sym q) d;
                    }
                    | inr (inr b) ↦ absurd b
                  ];
                  config = f.config;
                  no_relays = f.no_relays;
                })
        ]
      ]

  add_subscription-IsFilled :
      (inj : Injector) (sub : Subscription)
      → In sub cfg.subscriptions
      → IsFilled inj
      → IsFilled (add_subscription nodes inj sub)
  unfolding add_subscription
  add_subscription-IsFilled inj sub i f = elim (Bool-cases sub.enable) [
    | inr e ↦ rw e f
    | inl e ↦
        rw e
          (foldl_inv IsFilled add_node inj (nodes_at sub.name nodes) (add_node-IsFilled sub i e) f)
  ]

  -- The pool that newInjector fills holds each tag once and nodes of enabled subscriptions only,
  -- and its index finds exactly the nodes of the pool by their tags.
  pub fill_pool-IsFilled : (modules : List Module) → IsFilled (fill_pool cfg modules nodes)
  unfolding fill_pool lookup
  fill_pool-IsFilled modules =
      foldl_inv IsFilled (add_subscription nodes) _ cfg.subscriptions
        (λ inj sub i f. add_subscription-IsFilled inj sub i f)
        (record {
          pooled = record {
            distinct = tt;
            tagged = λ n i. absurd i;
            indexed = λ n i. absurd i;
            only = λ t n l. cc;
          };
          from = λ n i. absurd i;
          config = refl;
          no_relays = refl;
        })
