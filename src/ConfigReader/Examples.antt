-- ===== src/ConfigReader/Examples.antt =====
-- A file with an object `a`, in which `b` is the number 7.
use kongjaexpress.Prelude.{
  ℕ, ◌≡◌, refl, arith, List, [], ◌∷◌, ◌++◌, true, false, ◌&&◌, Option, none, some, ◌==◌,
  if◌then◌else◌,
}
use kongjaexpress.ConfigReader.{
  Json, number, integer, ParamDef, strchr, extract_subpath_and_advance, path_loop,
  get_json_obj_from_path, config_load_params,
}
use kongjaexpress.ConfigReader.Paths.{parts, split, walk, below, given, IsTree, get_json_obj-walk}
use kongjaexpress.ConfigReader.Loaded.{fill, load-fill}

-- the child of a node by a name of one letter
abbrev child : ℕ → List ℕ → Option ℕ
child node [] = none
child node (c ∷ _) =
    if node == 0 && c == 97 then some 1 else if node == 1 && c == 98 then some 2 else none

abbrev file : Json ℕ
file = record {
  get_object_item = child;
  same_node = λ a b. a == b;
  kind = λ node. number;
  valuedouble = λ node. 0;
  valueint = λ node. 7;
  valuestring = λ node. 0;
}

file-IsTree : IsTree file 0
file-IsTree node item [] h = ground arith
file-IsTree node item (c ∷ cs) h = ground arith

-- a.b
abbrev path : List ℕ
path = 97 ∷ 46 ∷ 98 ∷ []

-- a.c
abbrev missing : ParamDef
missing = record { path = 97 ∷ 46 ∷ 99 ∷ []; param_type = integer; offset = 8 }

abbrev defs : List ParamDef
defs = record { path = path; param_type = integer; offset = 4 } ∷ []

path_parts : parts path ≡ (97 ∷ []) ∷ (98 ∷ []) ∷ []
unfolding split
path_parts = refl

-- There is memory for one part only: the parent is taken for the node.
one_part : get_json_obj_from_path file (λ i. i == 0) 0 path ≡ some (some 1)
unfolding get_json_obj_from_path path_loop extract_subpath_and_advance strchr
one_part = refl

get_json_obj-walk_example :
    get_json_obj_from_path file (λ i. i == 0) 0 path
    ≡ some (below file 0 (given (λ i. i == 0) (parts path)))
get_json_obj-walk_example = get_json_obj-walk file (λ i. i == 0) 0 path refl file-IsTree

load-fill_example :
    (config_load_params file (λ i j. true) 0 defs 0 (λ at. 0)
      ≡ some (true, fill file 0 (λ d. 2) defs (λ at. 0)))
    × (config_load_params file (λ i j. true) 0 (defs ++ missing ∷ []) 0 (λ at. 0)
        ≡ some (false, fill file 0 (λ d. 2) defs (λ at. 0)))
unfolding split walk below
load-fill_example =
    load-fill file 0 (λ d. 2) refl file-IsTree (λ node. omega arith) (λ i j. true) defs missing [] 0
      (λ at. 0) (λ i j h. refl) ((refl, refl), tt) refl
