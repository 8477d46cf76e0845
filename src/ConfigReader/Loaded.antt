-- ===== src/ConfigReader/Loaded.antt =====
-- What the parameters of a list are after they are loaded.
use kongjaexpress.Prelude.{
  ℕ, suc, ◌+◌, ◌*◌, ◌/◌, ◌^◌, ◌<◌, ◌≡◌, refl, ap, ◌∙◌, arith, List, [], ◌∷◌, ◌++◌, Bool, true,
  false, none, length, some,
}
use mathlib.Core.Option
use kongjaexpress.Prelude.Bytes.{All}
use kongjaexpress.ConfigReader.{
  Json, Kind, number, text, ParamType, integer, double, string, ParamDef, Fields, put_field, store,
  read_value, param_of, load_one, config_get_param, config_load_params,
}
use kongjaexpress.ConfigReader.Paths.{parts, given, given-all, below, IsTree, get_json_obj-walk}

-- the type of node that a parameter wants
abbrev pub kind_of : ParamType → Kind
kind_of integer = number
kind_of double = number
kind_of string = text

module _ {Node : Type 0} (json : Json Node) (root : Node) (nodes : ParamDef → Node) where
  -- What is stored for a parameter. The union gives a double the integer in its lower half.
  abbrev pub field : ParamType → Node → ℕ
  field integer node = json.valueint node
  field double node = json.valuedouble node / 2 ^ 32 * 2 ^ 32 + json.valueint node
  field string node = json.valuestring node

  abbrev pub fill : List ParamDef → Fields → Fields
  fill [] base = base
  fill (d ∷ ds) base = fill ds (put_field d.offset (field d.param_type (nodes d)) base)

  -- The path of a parameter leads to its node, and this has the type that the parameter wants.
  abbrev pub IsFound : ParamDef → Type 0
  IsFound d =
      (below json root (parts d.path) ≡ some (nodes d))
      × (json.kind (nodes d) ≡ kind_of d.param_type)

  module _ (same : json.same_node root root ≡ true) (tree : IsTree json root)
      (int_size : (node : Node) → json.valueint node < 2 ^ 32) where
    param-below :
        (memory : ℕ → Bool) (d : ParamDef) (v : ℕ)
        → ((j : ℕ) → memory j ≡ true)
        → IsFound d
        → config_get_param json memory root d.path v
          ≡ Option.map (λ w. (true, w)) (read_value json (kind_of d.param_type) (nodes d) v)
    unfolding config_get_param
    param-below memory d v ample h =
        ap (λ o. param_of json o v)
          (get_json_obj-walk json memory root d.path same tree
            ∙ ap (λ ps. some (below json root ps)) (given-all memory (parts d.path) ample)
            ∙ ap some h.0)
        ∙ ap (λ k. Option.map (λ w. (true, w)) (read_value json k (nodes d) v)) h.1

    param_missing :
        (memory : ℕ → Bool) (path : List ℕ) (v : ℕ)
        → below json root (given memory (parts path)) ≡ none
        → config_get_param json memory root path v ≡ some (false, v)
    unfolding config_get_param
    param_missing memory path v h =
        ap (λ o. param_of json o v) (get_json_obj-walk json memory root path same tree ∙ ap some h)

    store-read :
        (t : ParamType) (node : Node) (v : ℕ)
        → (w : ℕ) × (read_value json (kind_of t) node v ≡ some w)
          × ((offset : ℕ) (base : Fields)
              → store t offset w base ≡ put_field offset (field t node) base)
    unfolding read_value store
    store-read integer node v = (
      _,
      refl,
      λ offset base. ap (λ (x : ℕ). put_field offset x base) (omega (arith, int_size node)),
    )
    store-read double node v = (_, refl, λ offset base. refl)
    store-read string node v = (_, refl, λ offset base. refl)

    load-cons :
        (memory : ℕ → ℕ → Bool) (d : ParamDef) (ds : List ParamDef) (v : ℕ) (base : Fields)
        → ((j : ℕ) → memory 0 j ≡ true)
        → IsFound d
        → (w : ℕ) × (config_load_params json memory root (d ∷ ds) v base
            ≡ config_load_params json
                (λ i. memory (suc i))
                root
                ds
                w
                (put_field d.offset (field d.param_type (nodes d)) base))
    unfolding config_load_params
    load-cons memory d ds v base ample h =
        let (w, read, stored) = store-read d.param_type (nodes d) v in
        let rest : ℕ → ℕ → Bool = λ i. memory (suc i) in
        (
          w,
          ap
                (λ o.
                  load_one json o d base
                    (λ v' base'. config_load_params json rest root ds v' base'))
                (param-below (memory 0) d v ample h ∙ ap (Option.map (λ x. (true, x))) read)
              ∙ ap (config_load_params json rest root ds w) (stored d.offset base),
        )

    -- The file is a tree whose integers have 32 bits, and its root is the same node as itself. Every
    -- parameter of a list has a node at its path, of the type that it wants, and there is memory for
    -- the parts of these paths. Then the load of the list succeeds, whatever the value of the loop was,
    -- and each field has what the node of the last parameter for it gives: the integer, the string, or
    -- the double with the integer in its lower half. If the search for a parameter behind them, along
    -- the parts of its path for which there is memory, finds no node but the root, the load fails, with
    -- the fields of the ones before it stored.
    pub load-fill :
        (memory : ℕ → ℕ → Bool) (ds : List ParamDef) (missing : ParamDef) (others : List ParamDef)
        (v : ℕ) (base : Fields)
        → ((i j : ℕ) → i < length ds → memory i j ≡ true)
        → All IsFound ds
        → below json root (given (memory (length ds)) (parts missing.path)) ≡ none
        → (config_load_params json memory root ds v base ≡ some (true, fill ds base))
          × (config_load_params json memory root (ds ++ missing ∷ others) v base
              ≡ some (false, fill ds base))
    unfolding config_load_params
    load-fill memory [] missing others v base ample found gone = (
      refl,
      ap
          (λ o.
            load_one json o missing base
              (λ v' base'. config_load_params json (λ i. memory (suc i)) root others v' base'))
          (param_missing (memory 0) missing.path v gone),
    )
    load-fill memory (d ∷ ds) missing others v base ample found gone =
        let rest : ℕ → ℕ → Bool = λ i. memory (suc i) in
        let first_ample : (j : ℕ) → memory 0 j ≡ true = λ j. ample 0 j (omega arith) in
        let rest_ample : (i j : ℕ) → i < length ds → rest i j ≡ true =
          λ i j h. ample (suc i) j (omega arith) in
        let (w, loaded) = load-cons memory d ds v base first_ample found.0 in
        let (w', loaded') =
          load-cons memory d (ds ++ missing ∷ others) v base first_ample found.0 in
        let next = put_field d.offset (field d.param_type (nodes d)) base in
        (
          loaded ∙ (load-fill rest ds missing others w next rest_ample found.1 gone).0,
          loaded' ∙ (load-fill rest ds missing others w' next rest_ample found.1 gone).1,
        )
