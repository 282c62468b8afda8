-- ===== src/Json.antt =====
-- The values that encoding/json decodes into `any`, and the operations that the program makes on
-- them: reads, writes and deletions of object keys, and type assertions.
use node_box.Prelude.{
  String, ◌≡◌, refl, Bool, Option, none, some, List, [], ◌∷◌, arith, ◌==◌, eq_iff, if◌then◌else◌,
}

-- A number is kept as its literal: nothing in the program computes with one.
mutual
  pub data Json : Type 0 where
    null : Json
    bool : Bool → Json
    num : String → Json
    str : String → Json
    arr : Items → Json
    obj : Fields → Json

  pub data Items : Type 0 where
    nil : Items
    cons : Json → Items → Items

  pub data Fields : Type 0 where
    end : Fields
    field : String → Json → Fields → Fields

-- A slice `[]any`, as a list.
unfoldable pub elements : Items → List Json
elements nil = []
elements (cons x xs) = x ∷ elements xs

unfoldable pub items : List Json → Items
items [] = nil
items (x ∷ xs) = cons x (items xs)

pub elements-items : (xs : List Json) → elements (items xs) ≡ xs
unfolding elements items
elements-items [] = refl
elements-items (x ∷ xs) = λ i. x ∷ elements-items xs i

-- m[k], with `none` for a missing key
unfoldable pub get : String → Fields → Option Json
get k end = none
get k (field j v m) = if j == k then some v else get k m

-- m[k] = v
unfoldable pub put : String → Json → Fields → Fields
put k v end = field k v end
put k v (field j w m) = if j == k then field k v m else field j w (put k v m)

pub get-put :
    (k j : String) (v : Json) (m : Fields)
    → get j (put k v m) ≡ (if k == j then some v else get j m)
unfolding get put
get-put k j v end = refl
get-put k j v (field i w m) = ground (arith, eq_iff k j, eq_iff i k, eq_iff i j, get-put k j v m)

-- `s, _ := v.(string)`
abbrev pub text_of : Option Json → String
text_of (some (str s)) = s
text_of _ = ""

-- `s, ok := v.(string)`
abbrev pub as_text : Option Json → Option String
as_text (some (str s)) = some s
as_text _ = none

-- `a, ok := v.([]any)`
abbrev pub as_array : Option Json → Option (List Json)
as_array (some (arr xs)) = some (elements xs)
as_array _ = none

-- `a, _ := v.([]any)`
abbrev pub array_of : Option Json → List Json
array_of (some (arr xs)) = elements xs
array_of _ = []

-- `o, ok := v.(map[string]any)`
abbrev pub as_object : Json → Option Fields
as_object (obj m) = some m
as_object _ = none

-- The objects of an array, in order.
unfoldable pub objects : List Json → List Fields
objects [] = []
objects (obj m ∷ xs) = m ∷ objects xs
objects (null ∷ xs) = objects xs
objects (bool _ ∷ xs) = objects xs
objects (num _ ∷ xs) = objects xs
objects (str _ ∷ xs) = objects xs
objects (arr _ ∷ xs) = objects xs

abbrev pub IsObject : Json → Type 0
IsObject (obj m) = Unit
IsObject _ = ⊥
