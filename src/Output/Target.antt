-- ===== src/Output/Target.antt =====
-- internal/output/target.go: where each output is written, with what it uses of path/filepath on a
-- Unix host, and Within of internal/fsx/fsx.go.
pub mod Under
pub mod Destinations
use Prim.Native.Char.{Char, code}
use node_box.Prelude.{
  ℕ, String, Bool, true, false, not, ◌&&◌, ◌||◌, Option, none, some, List, [], ◌∷◌, ◌++◌, foldl,
  ◌==◌, eqb, if◌then◌else◌, Result, ok, err, ◌>>=◌, Dict, lookup, insert,
}
use node_box.TextUtil.{concat, has_prefix}
use node_box.Model.{Config, ConfigFile, OutputConfig}
use node_box.Model.Paths.{split, climb}
use node_box.Build.Generate.{Target}

unfoldable pub is_abs : String → Bool
unfolding has_prefix
is_abs p = has_prefix p "/"

parent : List String → List String
parent [] = []
parent (c ∷ cs) = cs

clean_step : Bool → List String → String → List String
clean_step rooted cs c =
    if c == "" || c == "."
    then cs
    else if c == ".."
    then (if rooted then parent cs else climb cs)
    else c ∷ cs

reversed : List String → List String → List String
reversed done [] = done
reversed done (c ∷ cs) = reversed (c ∷ done) cs

-- the components of the cleaned path, in order
unfoldable pub components : String → List String
unfolding clean_step parent reversed split climb is_abs
components p = reversed [] (foldl (clean_step (is_abs p)) [] (split p))

joined : List String → String
joined [] = ""
joined (c ∷ []) = c
joined (c ∷ d ∷ cs) = concat c (concat "/" (joined (d ∷ cs)))

relative : List String → String
relative [] = "."
relative (c ∷ cs) = joined (c ∷ cs)

-- filepath.Clean
unfoldable pub clean : String → String
unfolding components joined relative is_abs
clean p = if is_abs p then concat "/" (joined (components p)) else relative (components p)

-- filepath.Join of two elements
unfoldable pub join : String → String → String
unfolding clean
join a b =
    if a == "" && b == ""
    then ""
    else if a == ""
    then clean b
    else if b == ""
    then clean a
    else clean (concat a (concat "/" b))

-- the rest of `p` below `dir` does not begin with ".."
below : List String → Bool
below [] = true
below (c ∷ cs) = not (c == "..")

under : List String → List String → Bool
under [] p = below p
under (d ∷ dir) [] = false
under (d ∷ dir) (c ∷ p) = d == c && under dir p

both : Bool → Bool → Bool
both true b = b
both false b = not b

-- fsx.Within: filepath.Rel fails, or begins with "..", unless `dir` is a prefix of `p`.
unfoldable pub within : String → String → Bool
unfolding under below both is_abs
within p dir = both (is_abs p) (is_abs dir) && under (components dir) (components p)

output_dir : String → Option OutputConfig → String
output_dir root none = join root "out"
output_dir root (some o) =
    if o.dir == ""
    then join root "out"
    else if is_abs o.dir
    then clean o.dir
    else clean (join root o.dir)

-- BaseDir, with the bootstrap's Root
unfoldable pub base_dir : String → Config → String
unfolding output_dir join
base_dir root c = output_dir root c.output

-- Bootstrap.SnapshotsDir
unfoldable pub snapshots_dir : String → String
unfolding join
snapshots_dir root = join root "snapshots"

pub data TargetError : Type 0 where
  same_path : String → String → String → TargetError
  inside_snapshots : String → String → TargetError

unfoldable pub destination : String → String → String
unfolding clean join
destination base p = if is_abs p then clean p else clean (join base p)

resolve_one : String → ConfigFile → String → Option String → Result TargetError Target
resolve_one snapshots cf p (some prev) = err (same_path prev cf.name p)
resolve_one snapshots cf p none =
    if within p snapshots
    then err (inside_snapshots cf.name p)
    else ok (record { config = cf; path = p })

-- the loop of Resolve
unfoldable pub resolve_loop :
    String → String → Dict String → List ConfigFile → Result TargetError (List Target)
unfolding resolve_one
resolve_loop base snapshots seen [] = ok []
resolve_loop base snapshots seen (cf ∷ cfs) = do
  let p = destination base cf.path
  t ← resolve_one snapshots cf p (lookup p seen)
  ts ← resolve_loop base snapshots (insert p cf.name seen) cfs
  ok (t ∷ ts)

-- Resolve
unfoldable pub resolve : String → Config → Result TargetError (List Target)
unfolding resolve_loop base_dir snapshots_dir
resolve root c = resolve_loop (base_dir root c) (snapshots_dir root) [] c.configs
