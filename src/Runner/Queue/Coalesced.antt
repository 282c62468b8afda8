-- ===== src/Runner/Queue/Coalesced.antt =====
-- coalesce of internal/runner/coalesce.go: what a merged trigger takes from the others.
use node_box.Prelude.{
  String, ◌≡◌, ◌↔◌, refl, ap, Bool, not, ◌∙◌, subst, inl, inr, true, false, List, [], ◌∷◌, arith,
  ◌==◌, Bool-cases, if◌then◌else◌, In, All,
}
use node_box.Control.{Kind, Trigger, webhook, signal, manual, schedule, poll, startup}
use node_box.Runner.Queue.{is_timer, merge, coalesce}

-- The last ref of the list that is set, or else `d`.
pub last_ref : String → List Trigger → String
last_ref d [] = d
last_ref d (t ∷ ts) = last_ref (if t.ref == "" then d else t.ref) ts

-- A request by a person or another program; the other kinds are timers that fire by themselves.
pub is_request : Kind → Bool
is_request webhook = true
is_request signal = true
is_request manual = true
is_request schedule = false
is_request poll = false
is_request startup = false

-- The first kind of the list that is no timer, or else the last of `k` and the list.
pub first_request : Kind → List Trigger → Kind
first_request k [] = k
first_request k (t ∷ ts) = let later = first_request t.kind ts in if is_request k then k else later

-- The merged trigger is forced exactly if one of those is, acts on the last ref that is set, and
-- counts as what the first specific request asked for; it is a timer's only if all are.
pub record IsMerged (t : Trigger) (queue : List Trigger) (r : Trigger) : Type 0 where
  pub force : (r.force ≡ true) ↔ ((x : Trigger) × In x (t ∷ queue) × (x.force ≡ true))
  pub ref : r.ref ≡ last_ref t.ref queue
  pub kind : r.kind ≡ first_request t.kind queue
  pub timer : (is_request r.kind ≡ false) ↔ All (λ x. is_request x.kind ≡ false) (t ∷ queue)

is_timer-is_request : (k : Kind) → is_timer k ≡ not (is_request k)
unfolding is_timer is_request
is_timer-is_request webhook = refl
is_timer-is_request signal = refl
is_timer-is_request manual = refl
is_timer-is_request schedule = refl
is_timer-is_request poll = refl
is_timer-is_request startup = refl

force→ :
    (t : Trigger) (q : List Trigger)
    → (coalesce t q).force ≡ true
    → (x : Trigger) × In x (t ∷ q) × (x.force ≡ true)
unfolding coalesce
force→ t [] h = (t, inl refl, h)
force→ t (u ∷ q) h =
    let (x, i, f) = force→ (merge t u) q h in
    elim i [
      | inr j ↦ (x, inr (inr j), f)
      | inl e ↦ elim (Bool-cases t.force) [
        | inl a ↦ (t, inl refl, a)
        | inr b ↦
            let m : (merge t u).force ≡ true = subst (λ (y : Trigger). y.force ≡ true) e f in
            (u, inr (inl refl), ground arith)
      ]
    ]

→force :
    (t : Trigger) (q : List Trigger) (x : Trigger)
    → In x (t ∷ q)
    → x.force ≡ true
    → (coalesce t q).force ≡ true
unfolding coalesce
→force t [] x (inl e) f = subst (λ (y : Trigger). y.force ≡ true) e f
→force t [] x (inr i) f = absurd i
→force t (u ∷ q) x (inr (inr i)) f = →force (merge t u) q x (inr i) f
→force t (u ∷ q) x (inl e) f =
    let g : t.force ≡ true = subst (λ (y : Trigger). y.force ≡ true) e f in
    →force (merge t u) q (merge t u) (inl refl) (ground arith)
→force t (u ∷ q) x (inr (inl e)) f =
    let g : u.force ≡ true = subst (λ (y : Trigger). y.force ≡ true) e f in
    →force (merge t u) q (merge t u) (inl refl) (ground arith)

ref-coalesce : (t : Trigger) (q : List Trigger) → (coalesce t q).ref ≡ last_ref t.ref q
unfolding coalesce last_ref
ref-coalesce t [] = refl
ref-coalesce t (u ∷ q) = ref-coalesce (merge t u) q

merge_timer : (t u : Trigger) → is_request t.kind ≡ false → (merge t u).kind ≡ u.kind
unfolding merge
merge_timer t u h = ground (arith, is_timer-is_request t.kind)

merge_request : (t u : Trigger) → is_request t.kind ≡ true → (merge t u).kind ≡ t.kind
unfolding merge
merge_request t u h = ground (arith, is_timer-is_request t.kind)

first_request_stays : (k : Kind) (ts : List Trigger) → is_request k ≡ true → first_request k ts ≡ k
unfolding first_request
first_request_stays k [] h = refl
first_request_stays k (t ∷ ts) h = rw h refl

kind-coalesce : (t : Trigger) (q : List Trigger) → (coalesce t q).kind ≡ first_request t.kind q
unfolding coalesce first_request
kind-coalesce t [] = refl
kind-coalesce t (u ∷ q) = elim (Bool-cases (is_request t.kind)) [
  | inr e ↦ rw e (kind-coalesce (merge t u) q ∙ ap (λ k. first_request k q) (merge_timer t u e))
  | inl e ↦ rw e (
      kind-coalesce (merge t u) q
      ∙ ap (λ k. first_request k q) (merge_request t u e)
      ∙ first_request_stays t.kind q e)
]

timer→ :
    (k : Kind) (q : List Trigger)
    → is_request (first_request k q) ≡ false
    → (is_request k ≡ false) × All (λ x. is_request x.kind ≡ false) q
unfolding first_request
timer→ k [] h = (h, tt)
timer→ k (u ∷ q) h = elim (Bool-cases (is_request k)) [
  | inr e ↦ (e, timer→ u.kind q (rw e at h))
  | inl e ↦ absurd (let g : is_request k ≡ false = rw e at h in cc (e, g))
]

→timer :
    (k : Kind) (q : List Trigger)
    → is_request k ≡ false
    → All (λ x. is_request x.kind ≡ false) q
    → is_request (first_request k q) ≡ false
unfolding first_request
→timer k [] h a = h
→timer k (u ∷ q) h a = rw h (→timer u.kind q a.0 a.1)

-- coalesce merges the queue into the trigger as `IsMerged` says.
pub coalesce-IsMerged : (t : Trigger) (queue : List Trigger) → IsMerged t queue (coalesce t queue)
coalesce-IsMerged t queue = record {
  force = (force→ t queue, λ (x, i, f). →force t queue x i f);
  ref = ref-coalesce t queue;
  kind = kind-coalesce t queue;
  timer = (
    λ h. timer→ t.kind queue (rw kind-coalesce at h),
    λ a. rw kind-coalesce (→timer t.kind queue a.0 a.1),
  );
}
