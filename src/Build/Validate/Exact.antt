-- ===== src/Build/Validate/Exact.antt =====
-- validateDocument of internal/build/validate.go, against `IsWellFormed`.
use node_box.Prelude.{
  ℕ, String, ◌≡◌, ◌≢◌, ◌↔◌, refl, inl, inr, false, Option, none, some, List, [], ◌∷◌, arith, ◌==◌,
  eq_iff, ok, >>=-eq-ok, >>_iff, >>_pair, fail_if, fail_if_iff, for_each, for_each_iff,
  for_each_at_iff, All, All-append, All-append_left, All-append_right, All-map, In, Names, has,
  Bool-cases, has→In, In→has, has_false→not, not→has_false,
}
use node_box.Json.{
  Json, Fields, null, bool, num, str, arr, obj, end, field, get, as_array, array_of, objects,
  elements, IsObject,
}
use node_box.Node
use node_box.Node.{Node}
use node_box.Build.Errors.{Error}
use node_box.Build.Validate.{
  endpoint_types, group_types, check_object, check_array, check_value, check_array_section,
  place_item, check_endpoint_placement, check_name, check_member, check_members, check_group,
  check_detour, reference_item, check_references, collect_tags, is_empty, validate_document,
}
use node_box.Build.Validate.Spec.{
  section_nodes, all_nodes, IsSection, IsPlaced, IsMember, HasMembers, IsGroupDefined,
  IsDetourDefined, document_tags, IsWellFormed,
}
use node_box.Build.Validate.Tags.{collect_tags-Collected, collect_tags_total}

check_object_iff : (s : String) (i : ℕ) (j : Json) → (check_object s i j ≡ ok tt) ↔ IsObject j
unfolding check_object
check_object_iff s i (obj m) = (λ _. tt, λ _. refl)
check_object_iff s i null = (λ h. cc, λ h. absurd h)
check_object_iff s i (bool _) = (λ h. cc, λ h. absurd h)
check_object_iff s i (num _) = (λ h. cc, λ h. absurd h)
check_object_iff s i (str _) = (λ h. cc, λ h. absurd h)
check_object_iff s i (arr _) = (λ h. cc, λ h. absurd h)

check_value_iff : (s : String) (v : Option Json) → (check_value s v ≡ ok tt) ↔ IsSection v
unfolding check_value check_array
check_value_iff s none = (λ _. tt, λ _. refl)
check_value_iff s (some (arr xs)) =
    for_each_at_iff IsObject (check_object s) 0 (elements xs) (check_object_iff s)
check_value_iff s (some null) = (λ h. cc, λ h. absurd h)
check_value_iff s (some (bool _)) = (λ h. cc, λ h. absurd h)
check_value_iff s (some (num _)) = (λ h. cc, λ h. absurd h)
check_value_iff s (some (str _)) = (λ h. cc, λ h. absurd h)
check_value_iff s (some (obj _)) = (λ h. cc, λ h. absurd h)

IsSection→objects : (v : Option Json) → IsSection v → All IsObject (array_of v)
IsSection→objects (some (arr xs)) h = h
IsSection→objects none h = tt
IsSection→objects (some null) h = tt
IsSection→objects (some (bool _)) h = tt
IsSection→objects (some (num _)) h = tt
IsSection→objects (some (str _)) h = tt
IsSection→objects (some (obj _)) h = tt

place_item-objects : (xs : List Json) → (for_each place_item xs ≡ ok tt) ↔ All IsPlaced (objects xs)
unfolding place_item objects
place_item-objects [] = (λ _. tt, λ _. refl)
place_item-objects (obj n ∷ xs) =
    >>_pair (place_item (obj n)) (for_each place_item xs)
      (
        λ h. has_false→not _ endpoint_types ((fail_if_iff _ _).0 h),
        λ h. (fail_if_iff _ _).1 (not→has_false _ endpoint_types h),
      )
      (place_item-objects xs)
place_item-objects (null ∷ xs) = place_item-objects xs
place_item-objects (bool _ ∷ xs) = place_item-objects xs
place_item-objects (num _ ∷ xs) = place_item-objects xs
place_item-objects (str _ ∷ xs) = place_item-objects xs
place_item-objects (arr _ ∷ xs) = place_item-objects xs

module _ (tags : Names) (n : Node) where
  check_member_iff : (j : Json) → (check_member tags n j ≡ ok tt) ↔ IsMember tags j
  unfolding check_member check_name
  check_member_iff (str t) =
      (λ h. has→In t tags (ground arith), λ h. ground (arith, In→has t tags h))
  check_member_iff null = (λ h. cc, λ h. absurd h)
  check_member_iff (bool _) = (λ h. cc, λ h. absurd h)
  check_member_iff (num _) = (λ h. cc, λ h. absurd h)
  check_member_iff (arr _) = (λ h. cc, λ h. absurd h)
  check_member_iff (obj _) = (λ h. cc, λ h. absurd h)

  check_list_iff :
      (ms : List Json)
      → (check_members tags n (some ms) ≡ ok tt) ↔ ((ms ≢ []) × All (IsMember tags) ms)
  unfolding check_members
  check_list_iff [] = (λ h. cc, λ h. absurd (h.0 refl))
  check_list_iff (m ∷ ms) =
      let each = for_each_iff (IsMember tags) (check_member tags n) (m ∷ ms) check_member_iff in
      (λ h. (λ e. cc, each.0 h), λ h. each.1 h.1)

  check_members_iff :
      (v : Option Json) → (check_members tags n (as_array v) ≡ ok tt) ↔ HasMembers tags v
  unfolding check_members
  check_members_iff (some (arr xs)) = check_list_iff (elements xs)
  check_members_iff none = (λ h. cc, λ h. absurd h)
  check_members_iff (some null) = (λ h. cc, λ h. absurd h)
  check_members_iff (some (bool _)) = (λ h. cc, λ h. absurd h)
  check_members_iff (some (num _)) = (λ h. cc, λ h. absurd h)
  check_members_iff (some (str _)) = (λ h. cc, λ h. absurd h)
  check_members_iff (some (obj _)) = (λ h. cc, λ h. absurd h)

  check_group_iff : (check_group tags n ≡ ok tt) ↔ IsGroupDefined tags n
  unfolding check_group
  check_group_iff =
      let members = check_members_iff (get "outbounds" n) in
      elim (Bool-cases (has (Node.type n) group_types)) [
        | inl e ↦ rw e (λ h _. members.0 h, λ h. members.1 (h (has→In _ group_types e)))
        | inr e ↦ rw e (λ _ i. absurd (has_false→not _ group_types e i), λ _. refl)
      ]

  check_detour_iff : (check_detour tags n ≡ ok tt) ↔ IsDetourDefined tags n
  unfolding check_detour
  check_detour_iff = (
    λ h d. has→In _ tags (ground (arith, eq_iff (Node.detour n) "")),
    λ h. elim (Bool-cases (Node.detour n == "")) [
      | inl e ↦ rw e refl
      | inr e ↦
          ground (
            arith,
            In→has (Node.detour n) tags (h (λ q. ground (arith, eq_iff (Node.detour n) ""))),
          )
    ],
  )

abbrev IsReferring : Names → Node → Type 0
IsReferring tags n = IsGroupDefined tags n × IsDetourDefined tags n

reference_item-objects :
    (tags : Names) (xs : List Json)
    → All IsObject xs
    → (for_each (reference_item tags) xs ≡ ok tt) ↔ All (IsReferring tags) (objects xs)
unfolding reference_item objects
reference_item-objects tags [] os = (λ _. tt, λ _. refl)
reference_item-objects tags (obj n ∷ xs) os =
    >>_pair (reference_item tags (obj n)) (for_each (reference_item tags) xs)
      (>>_pair (check_group tags n) (check_detour tags n) (check_group_iff tags n)
        (check_detour_iff tags n))
      (reference_item-objects tags xs os.1)
reference_item-objects tags (null ∷ xs) os = absurd os.0
reference_item-objects tags (bool _ ∷ xs) os = absurd os.0
reference_item-objects tags (num _ ∷ xs) os = absurd os.0
reference_item-objects tags (str _ ∷ xs) os = absurd os.0
reference_item-objects tags (arr _ ∷ xs) os = absurd os.0

check_references_iff :
    (doc : Fields) (tags : Names)
    → All IsObject (array_of (get "outbounds" doc))
    → All IsObject (array_of (get "endpoints" doc))
    → (check_references doc tags ≡ ok tt) ↔ All (IsReferring tags) (all_nodes doc)
unfolding check_references
check_references_iff doc tags o1 o2 =
    let ns = section_nodes doc "outbounds" in
    let ms = section_nodes doc "endpoints" in
    let r1 = reference_item-objects tags (array_of (get "outbounds" doc)) o1 in
    let r2 = reference_item-objects tags (array_of (get "endpoints" doc)) o2 in
    let both =
      >>_pair (for_each (reference_item tags) (array_of (get "outbounds" doc)))
        (for_each (reference_item tags) (array_of (get "endpoints" doc))) r1 r2 in
    (
      λ h. let (a, b) = both.0 h in All-append (IsReferring tags) ns ms a b,
      λ h.
          both.1 (
            All-append_left (IsReferring tags) ns ms h,
            All-append_right (IsReferring tags) ns ms h,
          ),
    )

-- A set of tags may be exchanged for one with the same members.
module _ (s t : Names) (sub : (k : String) → In k s → In k t) where
  IsMember-mono : (j : Json) → IsMember s j → IsMember t j
  IsMember-mono (str k) h = sub k h
  IsMember-mono null h = h
  IsMember-mono (bool _) h = h
  IsMember-mono (num _) h = h
  IsMember-mono (arr _) h = h
  IsMember-mono (obj _) h = h

  HasMembers-mono : (v : Option Json) → HasMembers s v → HasMembers t v
  HasMembers-mono (some (arr xs)) h =
      (h.0, All-map (IsMember s) (IsMember t) (elements xs) IsMember-mono h.1)
  HasMembers-mono none h = h
  HasMembers-mono (some null) h = h
  HasMembers-mono (some (bool _)) h = h
  HasMembers-mono (some (num _)) h = h
  HasMembers-mono (some (str _)) h = h
  HasMembers-mono (some (obj _)) h = h

  IsReferring-mono : (n : Node) → IsReferring s n → IsReferring t n
  IsReferring-mono n h = (λ g. HasMembers-mono (get "outbounds" n) (h.0 g), λ d. sub _ (h.1 d))

is_empty_iff : (doc : Fields) → (is_empty doc ≡ false) ↔ (doc ≢ end)
unfolding is_empty
is_empty_iff end = (λ h. cc, λ h. absurd (h refl))
is_empty_iff (field k v m) = (λ _ e. cc, λ _. refl)

check_empty_iff : (doc : Fields) (e : Error) → (fail_if (is_empty doc) e ≡ ok tt) ↔ (doc ≢ end)
check_empty_iff doc e = (
  λ h. (is_empty_iff doc).0 ((fail_if_iff _ e).0 h),
  λ h. (fail_if_iff _ e).1 ((is_empty_iff doc).1 h),
)

check-IsSection_iff :
    (doc : Fields) (s : String) → (check_array_section doc s ≡ ok tt) ↔ IsSection (get s doc)
unfolding check_array_section
check-IsSection_iff doc s = check_value_iff s (get s doc)

placement_iff :
    (doc : Fields)
    → (check_endpoint_placement doc ≡ ok tt) ↔ All IsPlaced (section_nodes doc "outbounds")
unfolding check_endpoint_placement
placement_iff doc = place_item-objects (array_of (get "outbounds" doc))

-- An accepted document is well formed.
validate→IsWellFormed : (doc : Fields) → validate_document doc ≡ ok tt → IsWellFormed doc
unfolding validate_document
validate→IsWellFormed doc h =
    let (e, h1) = (>>_iff _ _).0 h in
    let (s1, h2) = (>>_iff _ _).0 h1 in
    let (s2, h3) = (>>_iff _ _).0 h2 in
    let (s3, h4) = (>>_iff _ _).0 h3 in
    let (p, h5) = (>>_iff _ _).0 h4 in
    let (tags, c, r) = >>=-eq-ok (collect_tags doc) _ h5 in
    let col = collect_tags-Collected doc tags c in
    let refs = (check_references_iff doc tags col.outbounds col.endpoints).0 r in
    let refs' =
      All-map (IsReferring tags) (IsReferring (document_tags doc)) (all_nodes doc)
        (IsReferring-mono tags (document_tags doc) col.sound) refs in
    record {
      nonempty = (check_empty_iff doc _).0 e;
      outbounds = (check-IsSection_iff doc "outbounds").0 s1;
      endpoints = (check-IsSection_iff doc "endpoints").0 s2;
      inbounds = (check-IsSection_iff doc "inbounds").0 s3;
      placed = (placement_iff doc).0 p;
      tagged = col.named;
      distinct = col.distinct;
      groups =
          All-map (IsReferring (document_tags doc)) (IsGroupDefined (document_tags doc))
            (all_nodes doc) (λ n x. x.0) refs';
      detours =
          All-map (IsReferring (document_tags doc)) (IsDetourDefined (document_tags doc))
            (all_nodes doc) (λ n x. x.1) refs';
    }

All-pair : (P Q : Node → Type 0) (ns : List Node) → All P ns → All Q ns → All (λ n. P n × Q n) ns
All-pair P Q [] p q = tt
All-pair P Q (n ∷ ns) p q = ((p.0, q.0), All-pair P Q ns p.1 q.1)

IsWellFormed→validate : (doc : Fields) → IsWellFormed doc → validate_document doc ≡ ok tt
unfolding validate_document
IsWellFormed→validate doc w =
    let o1 = IsSection→objects (get "outbounds" doc) w.outbounds in
    let o2 = IsSection→objects (get "endpoints" doc) w.endpoints in
    let (tags, c) = collect_tags_total doc o1 o2 w.tagged w.distinct in
    let col = collect_tags-Collected doc tags c in
    let refs =
      All-map (IsReferring (document_tags doc)) (IsReferring tags) (all_nodes doc)
        (IsReferring-mono (document_tags doc) tags col.complete)
        (All-pair (IsGroupDefined (document_tags doc)) (IsDetourDefined (document_tags doc))
          (all_nodes doc) w.groups w.detours) in
    rw ((check_empty_iff doc _).1 w.nonempty) (
      rw ((check-IsSection_iff doc "outbounds").1 w.outbounds) (
        rw ((check-IsSection_iff doc "endpoints").1 w.endpoints) (
          rw ((check-IsSection_iff doc "inbounds").1 w.inbounds) (
            rw ((placement_iff doc).1 w.placed)
              (rw c ((check_references_iff doc tags o1 o2).1 refs))))))

-- `validate_document` accepts a document exactly when it is well formed.
pub validate_document_iff : (doc : Fields) → (validate_document doc ≡ ok tt) ↔ IsWellFormed doc
validate_document_iff doc = (validate→IsWellFormed doc, IsWellFormed→validate doc)
