-- ===== src/Runner/Update/Moved.antt =====
-- execute of internal/runner/runner.go: the pointers once a snapshot has been applied.
use node_box.Prelude.{
  String, ◌≡◌, refl, ap₂, ◌∙◌, Bool, true, false, not, ◌&&◌, Option, some, arith, ◌==◌,
  if◌then◌else◌,
}
use node_box.Source.Store.{
  Store, Pointer, current_pointer, previous_pointer, pointer, has_snapshot, gc, default_keep,
}
use node_box.Source.Store.Pointers.{after_set, pointer-set_pointer, has_snapshot-set_pointer}
use node_box.Source.Store.Collected.{pointer-gc}
use node_box.Runner.Update.{Env, keep_previous, move_pointers}

if_same : {A : Type 0} (b : Bool) (x : A) → (if b then x else x) ≡ x
if_same true x = refl
if_same false x = refl

module _ (env : Env) where
  -- What both pointers read once `ref` is applied, where `applied` was before.
  abbrev pub IsMoved : String → String → Store → Store → Type 0
  IsMoved applied ref store after =
      (pointer after current_pointer ≡ (
        if has_snapshot store ref && not (env.store_host.refuses_pointer current_pointer)
        then some ref
        else pointer store current_pointer))
      × (pointer after previous_pointer ≡ (
          if not (applied == "")
            && not (applied == ref)
            && has_snapshot store applied
            && not (env.store_host.refuses_pointer previous_pointer)
          then some applied
          else pointer store previous_pointer))

  pointer-keep_previous :
      (applied ref : String) (store : Store) (q : Pointer)
      → pointer (keep_previous env applied ref store) q ≡ (
          if not (applied == "")
            && not (applied == ref)
            && has_snapshot store applied
            && not (env.store_host.refuses_pointer previous_pointer)
          then after_set previous_pointer q applied (pointer store q)
          else pointer store q)
  unfolding keep_previous
  pointer-keep_previous applied ref store q =
      ground (arith, pointer-set_pointer env.store_host store previous_pointer q applied)

  has_snapshot-keep_previous :
      (applied ref r : String) (store : Store)
      → has_snapshot (keep_previous env applied ref store) r ≡ has_snapshot store r
  unfolding keep_previous
  has_snapshot-keep_previous applied ref r store =
      ground (arith, has_snapshot-set_pointer env.store_host store previous_pointer applied r)

  pub move_pointers-IsMoved :
      (applied ref : String) (store : Store)
      → IsMoved applied ref store (move_pointers env applied ref store)
  unfolding move_pointers
  move_pointers-IsMoved applied ref store =
      let kept = keep_previous env applied ref store in
      let known = has_snapshot-keep_previous applied ref ref store in
      let cur = pointer-set_pointer env.store_host kept current_pointer current_pointer ref in
      let prev = pointer-set_pointer env.store_host kept current_pointer previous_pointer ref in
      let kc = pointer-keep_previous applied ref store current_pointer in
      let kp = pointer-keep_previous applied ref store previous_pointer in
      let free = not (env.store_host.refuses_pointer current_pointer) in
      (
        cur
            ∙ ap₂ (λ (b : Bool) (o : Option String). if b && free then some ref else o) known
                (kc ∙ if_same _ (pointer store current_pointer)),
        prev ∙ if_same _ (pointer kept previous_pointer) ∙ kp,
      )

  pub IsMoved-gc :
      (applied ref : String) (store after : Store)
      → IsMoved applied ref store after
      → IsMoved applied ref store (gc env.store_host after default_keep)
  IsMoved-gc applied ref store after (c, p) = (
    pointer-gc env.store_host after default_keep current_pointer ∙ c,
    pointer-gc env.store_host after default_keep previous_pointer ∙ p,
  )
