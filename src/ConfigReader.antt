-- ===== src/ConfigReader.antt =====
-- src/utils/config_reader.c and inc/config_reader.h: parameters from a configuration file. cJSON is
-- a library that the program only calls: what it says of a node is the interface `Json`. The file
-- and its parse are left out: the root is what `cJSON_Parse` gives. Memory is little-endian. Whether
-- the calls of `strdup` and `strndup` get memory is an argument, for each of them.
pub mod Paths
pub mod Loaded
mod Examples
use kongjaexpress.Prelude.{
  ℕ, zero, suc, ◌+◌, ◌*◌, ◌/◌, ◌%◌, ◌^◌, List, [], ◌∷◌, Bool, true, false, Option, none, some, ◌==◌,
  if◌then◌else◌, length, take, drop,
}
use mathlib.Core.Option

-- `node->type`, as far as the code tells the types apart
pub data Kind : Type 0 where
  number text other : Kind

-- The fields of a node as bits: a double and a pointer have 64, an int has 32. `same_node` compares
-- two pointers.
pub record Json (Node : Type 0) : Type 0 where
  pub get_object_item : Node → List ℕ → Option Node
  pub same_node : Node → Node → Bool
  pub kind : Node → Kind
  pub valuedouble : Node → ℕ
  pub valueint : Node → ℕ
  pub valuestring : Node → ℕ

-- `strchr` of a point: its index
unfoldable pub strchr : List ℕ → Option ℕ
strchr [] = none
strchr (c ∷ cs) = let rest = Option.map suc (strchr cs) in if c == 46 then some 0 else rest

-- the part up to a point that `strchr` finds, and the path behind it; a path that is NULL is `none`
abbrev pub cut_at : List ℕ → Option ℕ → List ℕ × Option (List ℕ)
cut_at current none = (current, none)
cut_at current (some end) = (take end current, some (drop (suc end) current))

-- The first argument is whether `strdup` or `strndup` gives memory. Where the result is NULL, the only
-- caller leaves its loop, and what `current` is then is not used.
unfoldable pub extract_subpath_and_advance :
    Bool → Option (List ℕ) → Option (List ℕ × Option (List ℕ))
extract_subpath_and_advance ok none = none
extract_subpath_and_advance ok (some current) =
    if ok then some (cut_at current (strchr current)) else none

-- `ConfigParamType` and `ConfigParamDef`
pub data ParamType : Type 0 where
  integer double string : ParamType

pub record ParamDef : Type 0 where
  pub path : List ℕ
  pub param_type : ParamType
  pub offset : ℕ

-- `ConfigParamValue` is a union: its 64 bits, of which `i` is the lower half.
abbrev pub put_d : ℕ → ℕ → ℕ
put_d v d = d

abbrev pub put_i : ℕ → ℕ → ℕ
put_i v i = v / 2 ^ 32 * 2 ^ 32 + i

abbrev pub get_i : ℕ → ℕ
get_i v = v % 2 ^ 32

-- the fields of the structure at `base`, by their offsets
abbrev pub Fields : Type 0
Fields = ℕ → ℕ

abbrev pub put_field : ℕ → ℕ → Fields → Fields
put_field offset v base = λ at. if at == offset then v else base at

unfoldable pub store : ParamType → ℕ → ℕ → Fields → Fields
store integer offset v base = put_field offset (get_i v) base
store double offset v base = put_field offset v base
store string offset v base = put_field offset v base

module _ {Node : Type 0} (json : Json Node) where
  -- the rest of the loop, where `cJSON_GetObjectItem` gives a node
  abbrev pub descend : Option Node → (Node → Option (Option Node)) → Option (Option Node)
  descend none rest = some none
  descend (some item) rest = rest item

  -- The loop, on fuel. The outer option is whether the fuel suffices, the inner one whether there
  -- is a node. `memory` says which of the calls of `extract_subpath_and_advance` get memory.
  unfoldable pub path_loop : ℕ → (ℕ → Bool) → Node → Option (List ℕ) → Option (Option Node)
  path_loop zero memory node current = none
  path_loop (suc fuel) memory node current = elim (extract_subpath_and_advance (memory 0) current) [
    | none ↦ some (some node)
    | some (subpath, next) ↦
        descend (json.get_object_item node subpath)
          (λ item. path_loop fuel (λ i. memory (suc i)) item next)
  ]

  abbrev pub not_root : Node → Option Node → Option Node
  not_root root none = none
  not_root root (some node) = if json.same_node node root then none else some node

  unfoldable pub get_json_obj_from_path : (ℕ → Bool) → Node → List ℕ → Option (Option Node)
  get_json_obj_from_path memory root path =
      Option.map (not_root root) (path_loop (suc (suc (length path))) memory root (some path))

  -- `none` is `BUG()`, for a type that is not supported.
  unfoldable pub read_value : Kind → Node → ℕ → Option ℕ
  read_value number node v = some (put_i (put_d v (json.valuedouble node)) (json.valueint node))
  read_value text node v = some (json.valuestring node)
  read_value other node v = none

  -- 0 is true, and -1 false. `none` is `BUG()`, since the fuel suffices.
  abbrev pub param_of : Option (Option Node) → ℕ → Option (Bool × ℕ)
  param_of none v = none
  param_of (some none) v = some (false, v)
  param_of (some (some node)) v = Option.map (λ w. (true, w)) (read_value (json.kind node) node v)

  unfoldable pub config_get_param : (ℕ → Bool) → Node → List ℕ → ℕ → Option (Bool × ℕ)
  config_get_param memory root path v = param_of (get_json_obj_from_path memory root path) v

  -- an iteration of the loop of `config_load_params`, with what it does then
  abbrev pub load_one :
      Option (Bool × ℕ)
      → ParamDef
      → Fields
      → (ℕ → Fields → Option (Bool × Fields))
      → Option (Bool × Fields)
  load_one none d base rest = none
  load_one (some (false, v)) d base rest = some (false, base)
  load_one (some (true, v)) d base rest = rest v (store d.param_type d.offset v base)

  -- The value `v` of the loop is not initialised. `memory` says for each parameter which of its calls
  -- get memory.
  unfoldable pub config_load_params :
      (ℕ → ℕ → Bool) → Node → List ParamDef → ℕ → Fields → Option (Bool × Fields)
  config_load_params memory root [] v base = some (true, base)
  config_load_params memory root (d ∷ ds) v base =
      load_one (config_get_param (memory 0) root d.path v) d base
        (λ v' base'. config_load_params (λ i. memory (suc i)) root ds v' base')
