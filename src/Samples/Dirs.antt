-- ===== src/Samples/Dirs.antt =====
-- Two outputs under the output directory, and one outside of it.
use node_box.Prelude.{String, true, ◌≡◌, refl, none, some, List, [], ◌∷◌, ◌==◌, has, if◌then◌else◌}
use node_box.Build.Generate.{Target}
use node_box.Output.Target.{within}
use node_box.TextUtil.{concat}
use node_box.Output.Dirs.{dir_of, Host, must_exist, ensure_dirs, ensured}
use node_box.Output.Dirs.Expected.{AreEnsured}
use node_box.Output.Dirs.Usable.{ensure_dirs-AreEnsured}

abbrev host : Host
host = record {
  stat = λ p. if p == "/etc/box" then some true else none;
  makes_dir = λ p. true;
  creates_temp = λ p. true;
  removes_temp = λ p. true;
}

abbrev at : String → String → Target
at name path = record { config = record { name = name; path = path; modules = [] }; path = path }

abbrev outs : List Target
outs = at "a" "/box/out/x/a.json" ∷ at "b" "/box/out/x/b.json" ∷ at "c" "/etc/box/c.json" ∷ []

-- A directory is made once, with the parents that are missing.
made_once :
    ensure_dirs host "/box/out" outs
    ≡ ensured (record { made = "/box" ∷ "/box/out" ∷ "/box/out/x" ∷ []; left = [] }) none
unfolding ensure_dirs within dir_of concat has
made_once = refl

-- A mistyped path is found before anything is made.
mistyped :
    ensure_dirs host "/box/out" (at "a" "/box/out/x/a.json" ∷ at "c" "/ect/box/c.json" ∷ [])
    ≡ ensured (record { made = []; left = [] }) (some (must_exist "c" "/ect/box"))
unfolding ensure_dirs within dir_of concat
mistyped = refl

ensure_dirs-AreEnsured_example : AreEnsured host "/box/out" outs (ensure_dirs host "/box/out" outs)
ensure_dirs-AreEnsured_example = ensure_dirs-AreEnsured host "/box/out" outs
