-- ===== src/Build/Generate/Files.antt =====
-- Build of internal/build/build.go: the files that it returns.
use node_box.Prelude.{
  String, ◌≡◌, refl, ap, subst, sym, ◌∙◌, Option, none, some, List, [], ◌∷◌, arith, ok, >>=-eq-ok,
}
use node_box.Json.{Fields}
use node_box.Model.{Config}
use node_box.TextUtil.{RuneClass, concat}
use node_box.Build.Validate.{validate_document}
use node_box.Build.Validate.Spec.{IsWellFormed}
use node_box.Build.Validate.Exact.{validate_document_iff}
use node_box.Build.Assemble.{Unmarshal, assemble}
use node_box.Build.Injector.{Injector, new_injector}
use node_box.Build.Apply.{inject}
use node_box.Build.Generate.{
  Target, File, Input, remove_empty_top_level, Marshal, newline_after, encode, nodes_config,
  build_one, build_all, build_config, build,
}

module _ (marshal : Marshal) where
  -- The file is the encoding of a well-formed document, with a newline.
  pub record IsGenerated (f : File) : Type 0 where
    pub doc : Fields
    pub text : String
    pub well_formed : IsWellFormed doc
    pub encoded : marshal doc ≡ some text
    pub content : f.content ≡ concat text "\n"

  -- The files belong to the outputs, one to one and in order.
  abbrev pub Answers : List Target → List File → Type 0
  Answers [] [] = Unit
  Answers (o ∷ os) (f ∷ fs) =
      ((f.name ≡ o.config.name) × (f.path ≡ o.path) × IsGenerated f) × Answers os fs
  Answers [] (_ ∷ _) = ⊥
  Answers (_ ∷ _) [] = ⊥

  encode-ok :
      (doc : Fields) (c : String)
      → encode marshal doc ≡ ok c
      → (text : String) × (marshal doc ≡ some text) × (c ≡ concat text "\n")
  unfolding encode
  encode-ok doc c h = go (marshal doc) refl h
    where
      go :
          (o : Option String)
          → marshal doc ≡ o
          → newline_after o ≡ ok c
          → (text : String) × (marshal doc ≡ some text) × (c ≡ concat text "\n")
      go none e q = cc
      go (some text) e q = (text, e, ground arith)

  module _ (so : RuneClass) (unmarshal : Unmarshal) (inp : Input) (injector : Injector) where
    build_one-ok :
        (out : Target) (f : File)
        → build_one so unmarshal marshal inp injector out ≡ ok f
        → (f.name ≡ out.config.name) × (f.path ≡ out.path) × IsGenerated f
    unfolding build_one
    build_one-ok out f h =
        let (doc, _, h1) = >>=-eq-ok (assemble unmarshal inp.modules out.config.modules) _ h in
        let (injected, _, h2) = >>=-eq-ok (inject so injector doc out.config) _ h1 in
        let final = remove_empty_top_level injected in
        let (_, v, h3) = >>=-eq-ok (validate_document final) _ h2 in
        let (c, e, h4) = >>=-eq-ok (encode marshal final) _ h3 in
        let (text, m, q) = encode-ok final c e in
        let made : record { name = out.config.name; path = out.path; content = c } ≡ f =
          ground arith in
        (
          ap (λ (x : File). x.name) (sym made),
          ap (λ (x : File). x.path) (sym made),
          record {
            doc = final;
            text = text;
            well_formed = (validate_document_iff final).0 v;
            encoded = m;
            content = ap (λ (x : File). x.content) (sym made) ∙ q;
          },
        )

    build_all-Answers :
        (outs : List Target) (fs : List File)
        → build_all so unmarshal marshal inp injector outs ≡ ok fs
        → Answers outs fs
    unfolding build_all
    build_all-Answers [] [] h = tt
    build_all-Answers [] (f ∷ fs) h = cc
    build_all-Answers (o ∷ os) fs h =
        let (f, e, h1) = >>=-eq-ok (build_one so unmarshal marshal inp injector o) _ h in
        let (gs, r, h2) = >>=-eq-ok (build_all so unmarshal marshal inp injector os) _ h1 in
        let made : f ∷ gs ≡ fs = ground arith in
        subst (Answers (o ∷ os)) made (build_one-ok o f e, build_all-Answers os gs r)

-- Build returns one file for each output, in their order and at their paths, and each is the
-- encoding of a well-formed document.
pub build-Answers :
    (so : RuneClass) (unmarshal : Unmarshal) (marshal : Marshal) (inp : Input) (fs : List File)
    → build so unmarshal marshal inp ≡ ok fs
    → Answers marshal inp.outputs fs
unfolding build
build-Answers so unmarshal marshal inp fs h = go inp.config h
  where
    go :
        (c : Option Config)
        → build_config so unmarshal marshal inp c ≡ ok fs
        → Answers marshal inp.outputs fs
    go none q = cc
    go (some cfg) q =
        let (injector, _, r) =
          >>=-eq-ok (new_injector so (nodes_config cfg.nodes) cfg.modules inp.nodes) _ q in
        build_all-Answers marshal so unmarshal inp injector inp.outputs fs r
