-- ===== src/Source/GitHub/Cached.antt =====
-- Resolve of internal/source/github.go: the cache of the conditional requests.
use node_box.Prelude.{
  String, ◌≡◌, ◌⊎◌, inl, inr, refl, subst, Bool, true, false, not, ◌==◌, if◌then◌else◌, Result, ok,
  err, eq_false→ne, ok_inj,
}
use node_box.Fetch.{Bytes, Response}
use node_box.Fetch.Retry.{RetryError}
use node_box.Source.GitHub.{
  GitHub, Access, Resolved, unexpected_sha, remember, accept_sha, accept, answers_304,
  resolve_unconditional, on_answer, resolve,
}
use node_box.Source.Store.{valid_ref}
use node_box.TextUtil.{trim_space}

-- Nothing is cached, or a commit is.
abbrev pub IsCache : GitHub → Type 0
IsCache g = ((g.etag ≡ "") × (g.cached_sha ≡ "")) ⊎ (valid_ref g.cached_sha ≡ true)

-- The cache stays one; a commit that is returned is a valid ref, and is the one cached.
abbrev pub Answered : Resolved → Type 0
Answered run =
    IsCache run.source
    × ((sha : String)
        → run.outcome ≡ ok sha
        → (valid_ref sha ≡ true) × (run.source.cached_sha ≡ sha))

accept_sha-Answered :
    (g : GitHub) (etag sha : String) → IsCache g → Answered (accept_sha g etag sha)
unfolding accept_sha remember
accept_sha-Answered g etag sha c = go (valid_ref sha) refl
  where
    go :
        (b : Bool)
        → valid_ref sha ≡ b
        → Answered (
            if not b
            then record { source = g; outcome = err (unexpected_sha sha) }
            else record { source = remember g etag sha; outcome = ok sha })
    go false e = (c, λ s h. cc)
    go true e = (inr e, λ s h. (subst (λ y. valid_ref y ≡ true) (ok_inj h) e, ok_inj h))

accept-Answered :
    (text : Bytes → String) (g : GitHub) (answer : Result RetryError Response)
    → IsCache g
    → Answered (accept text g answer)
unfolding accept
accept-Answered text g (err e) c = (c, λ s h. cc)
accept-Answered text g (ok resp) c = accept_sha-Answered g resp.etag (trim_space (text resp.body)) c

on_answer-Answered :
    (a : Access) (g : GitHub) (answer : Result RetryError Response)
    → IsCache g
    → Answered (on_answer a g answer)
unfolding on_answer resolve_unconditional
on_answer-Answered a g answer c = go (answers_304 answer) (g.cached_sha == "") refl
  where
    valid : IsCache g → (g.cached_sha == "") ≡ false → valid_ref g.cached_sha ≡ true
    valid (inl (_, e)) n = absurd (eq_false→ne g.cached_sha "" n e)
    valid (inr v) n = v

    go :
        (b d : Bool)
        → (g.cached_sha == "") ≡ d
        → Answered (
            if b
            then (if d
                then resolve_unconditional a g
                else record { source = g; outcome = ok g.cached_sha })
            else accept a.text g answer)
    go true true e = accept-Answered a.text g _ c
    go true false e = (c, λ s h. (subst (λ y. valid_ref y ≡ true) (ok_inj h) (valid c e), ok_inj h))
    go false d e = accept-Answered a.text g answer c

-- Resolve keeps the cache either empty or holding a valid ref, and a commit that it returns is a
-- valid ref and is the one then cached, on a 304 and on a fresh answer alike.
pub resolve-Answered : (a : Access) (g : GitHub) → IsCache g → Answered (resolve a g)
unfolding resolve
resolve-Answered a g c = on_answer-Answered a g _ c
