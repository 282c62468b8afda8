-- ===== src/Output/Write/Committed.antt =====
-- Write of internal/output/write.go: the disk after it.
use node_box.Prelude.{
  String, ◌≡◌, ◌≢◌, refl, sym, subst, ◌∙◌, inl, inr, Bool, not, ◌&&◌, Option, none, some, List, [],
  ◌∷◌, map, arith, eq_iff, Bool-cases, Option-cases, In, lookup, lookup-insert, Names, IsDistinct,
}
use node_box.Build.Generate.{File}
use node_box.Output.Write.{
  Disk, Host, Outcome, matches_disk, holds_content, write_file, skip_file, write_one, stop_or,
  write_loop, write,
}

abbrev paths : List File → Names
paths fs = map (λ (f : File). f.path) fs

module _ (host : Host) (hash : String → String) (force : Bool) where
  -- One round: the file is on disk unless it failed, and other paths are as they were.
  record Round (o o' : Outcome) (f : File) : Type 0 where
    on_disk : o'.failed ≡ none → lookup f.path o'.disk ≡ some f.content
    others : (p : String) → p ≢ f.path → lookup p o'.disk ≡ lookup p o.disk
    named : (n : String) → o'.failed ≡ some n → n ≡ f.name

  write_one-Round :
      (o : Outcome) (f : File) → o.failed ≡ none → Round o (write_one host hash force o f) f
  unfolding write_one write_file skip_file matches_disk holds_content
  write_one-Round o f clean = record {
    on_disk = λ h. elim (Bool-cases (not force && matches_disk host o.disk f)) [
      | inl e ↦ rw e (elim (Option-cases (lookup f.path o.disk)) [
        | inl a ↦ ground arith
        | inr (c, a) ↦ ground (arith, eq_iff c f.content)
      ])
      | inr e ↦ ground (arith, lookup-insert f.path f.path f.content o.disk, eq_iff f.path f.path)
    ];
    others = λ p ne. ground (arith, lookup-insert f.path p f.content o.disk, eq_iff f.path p);
    named = λ n h. ground arith;
  }

  -- The whole loop.
  pub record IsCommitted (before after : Disk) (failed : Option String) (files : List File)
      : Type 0 where
    pub on_disk : failed ≡ none → (f : File) → In f files → lookup f.path after ≡ some f.content
    pub others :
        (p : String) → ¬ In p (map (λ (f : File). f.path) files) → lookup p after ≡ lookup p before
    pub named : (n : String) → failed ≡ some n → (f : File) × In f files × (n ≡ f.name)

  write_loop-IsCommitted :
      (o : Outcome) (fs : List File)
      → o.failed ≡ none
      → IsDistinct (paths fs)
      → IsCommitted o.disk
          (write_loop host hash force o fs).disk
          (write_loop host hash force o fs).failed
          fs
  unfolding write_loop stop_or
  write_loop-IsCommitted o [] clean d = record {
    on_disk = λ _ f i. absurd i;
    others = λ p i. refl;
    named = λ n h. cc;
  }
  write_loop-IsCommitted o (f ∷ fs) clean d =
      let o' = write_one host hash force o f in
      let r = write_one-Round o f clean in
      elim (Option-cases o'.failed) [
        | inr (n, e) ↦ rw e (record {
          on_disk = λ h. cc (h, e);
          others = λ p i. r.others p (λ q. i (inl q));
          named = λ m h. (f, inl refl, r.named m h);
        })
        | inl e ↦
            let rest = write_loop-IsCommitted o' fs e d.1 in
            rw e (record {
              on_disk = λ h g i. elim i [
                | inl q ↦
                    subst
                      (λ (x : File).
                        lookup x.path (write_loop host hash force o' fs).disk ≡ some x.content)
                      (sym q) (rest.others f.path d.0 ∙ r.on_disk e)
                | inr j ↦ rest.on_disk h g j
              ];
              others = λ p i. rest.others p (λ j. i (inr j)) ∙ r.others p (λ q. i (inl q));
              named = λ n h. let (g, i, q) = rest.named n h in (g, inr i, q);
            })
      ]

  -- Where the paths are distinct: without a failure every file is on disk with its content, skipped
  -- or written; a path of no file is as before; a failure names one of the files.
  pub write-IsCommitted :
      (disk : Disk) (files : List File)
      → IsDistinct (map (λ (f : File). f.path) files)
      → IsCommitted disk
          (write host hash force disk files).disk
          (write host hash force disk files).failed
          files
  unfolding write
  write-IsCommitted disk files d = write_loop-IsCommitted _ files refl d
