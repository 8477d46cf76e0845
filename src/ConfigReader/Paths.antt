-- ===== src/ConfigReader/Paths.antt =====
-- A path against the list of its parts.
use kongjaexpress.Prelude.{
  ℕ, zero, suc, ◌<◌, ◌≡◌, refl, sym, ap, ◌∙◌, arith, List, [], ◌∷◌, Bool, true, false, Option, none,
  some, ◌==◌, if◌then◌else◌, length, take, drop, length-drop,
}
use mathlib.Core.Option
use kongjaexpress.ConfigReader.{
  Json, strchr, extract_subpath_and_advance, cut_at, descend, path_loop, not_root,
  get_json_obj_from_path,
}

-- the parts of a path between its points, the first one and the others
unfoldable pub split : List ℕ → List ℕ × List (List ℕ)
split [] = ([], [])
split (c ∷ cs) =
    let (part, others) = split cs in if c == 46 then ([], part ∷ others) else (c ∷ part, others)

abbrev pub parts : List ℕ → List (List ℕ)
parts path = let (part, others) = split path in part ∷ others

-- the parts of a path up to the first one for which there is no memory
abbrev pub given : (ℕ → Bool) → List (List ℕ) → List (List ℕ)
given memory [] = []
given memory (part ∷ others) = if memory 0 then part ∷ given (λ i. memory (suc i)) others else []

-- the same, where there is memory for the first part
abbrev kept : (ℕ → Bool) → List (List ℕ) → List (List ℕ)
kept memory [] = []
kept memory (part ∷ others) = part ∷ given memory others

pub given-all :
    (memory : ℕ → Bool) (ps : List (List ℕ)) → ((i : ℕ) → memory i ≡ true) → given memory ps ≡ ps
given-all memory [] all = refl
given-all memory (part ∷ others) all =
    rw (all 0) (ap (λ ps. part ∷ ps) (given-all (λ i. memory (suc i)) others (λ i. all (suc i))))

-- What the first point of a path says of its parts.
abbrev pub Cut : List ℕ → Option ℕ → Type 0
Cut path none = parts path ≡ path ∷ []
Cut path (some i) = (i < length path) × (parts path ≡ take i path ∷ parts (drop (suc i) path))

cons-Cut :
    (c : ℕ) (cs : List ℕ) (o : Option ℕ)
    → (c == 46) ≡ false
    → Cut cs o
    → Cut (c ∷ cs) (Option.map suc o)
unfolding split
cons-Cut c cs none e h = rw e (ground (arith, h))
cons-Cut c cs (some i) e h = (omega (arith, h.0), rw e (ground (arith, h.1)))

strchr-Cut : (path : List ℕ) → Cut path (strchr path)
unfolding strchr split
strchr-Cut [] = refl
strchr-Cut (c ∷ cs) =
    elim (c == 46)
        as (λ b. (c == 46) ≡ b → Cut (c ∷ cs) (if b then some 0 else Option.map suc (strchr cs))) [
          | true ↦ λ e. (omega arith, rw e refl)
          | false ↦ λ e. cons-Cut c cs (strchr cs) e (strchr-Cut cs)
        ]
      refl

module _ {Node : Type 0} (json : Json Node) where
  -- one search in the object of a node for each part
  unfoldable pub walk : Node → List (List ℕ) → Option Node
  walk node [] = some node
  walk node (part ∷ others) = elim (json.get_object_item node part) [
    | none ↦ none
    | some item ↦ walk item others
  ]

  descend-walk :
      (found : Option Node) (others : List (List ℕ)) (rest : Node → Option (Option Node))
      → ((item : Node) → rest item ≡ some (walk item others))
      → descend json found rest ≡ some (elim found [ none ↦ none | some item ↦ walk item others ])
  descend-walk none others rest h = refl
  descend-walk (some item) others rest h = h item

  -- what is found in an object is not the root
  abbrev pub IsTree : Node → Type 0
  IsTree root =
      (node item : Node) (part : List ℕ)
      → json.get_object_item node part ≡ some item
      → json.same_node item root ≡ false

  -- what is found in an object, and then along the other parts
  down :
      (root : Node) (found : Option Node) (others : List (List ℕ))
      → ((item : Node)
          → found ≡ some item
          → not_root json root (walk item others) ≡ walk item others)
      → not_root json root (elim found [ none ↦ none | some item ↦ walk item others ])
        ≡ (elim found [ none ↦ none | some item ↦ walk item others ])
  down root none others h = refl
  down root (some item) others h = h item refl

  below_found :
      (root node : Node) (others : List (List ℕ))
      → IsTree root
      → json.same_node node root ≡ false
      → not_root json root (walk node others) ≡ walk node others
  unfolding walk
  below_found root node [] tree apart = rw apart refl
  below_found root node (part ∷ others) tree apart =
      down root (json.get_object_item node part) others
        (λ item e. below_found root item others tree (tree node item part e))

  -- The node at the end of a list of parts, if it is not the root.
  unfoldable pub below : Node → List (List ℕ) → Option Node
  below root [] = none
  below root (part ∷ others) = walk root (part ∷ others)

  below_root :
      (root : Node) (ps : List (List ℕ))
      → json.same_node root root ≡ true
      → IsTree root
      → not_root json root (walk root ps) ≡ below root ps
  unfolding walk below
  below_root root [] same tree = rw same refl
  below_root root (part ∷ others) same tree =
      down root (json.get_object_item root part) others
        (λ item e. below_found root item others tree (tree root item part e))

  -- With fuel for each byte of the path, the loop walks down along the parts that get memory.
  loop-walk :
      (fuel : ℕ) (memory : ℕ → Bool) (node : Node) (path : List ℕ)
      → length path < fuel
      → path_loop json (suc fuel) memory node (some path)
        ≡ some (walk node (given memory (parts path)))
  unfolding path_loop extract_subpath_and_advance walk
  loop-walk zero memory node path enough = absurd (omega arith)
  loop-walk (suc fuel) memory node path enough =
      let rest : ℕ → Bool = λ i. memory (suc i) in
      elim (memory 0)
        as (λ ok.
          (elim (if ok then some (cut_at path (strchr path)) else none) [
            | none ↦ some (some node)
            | some (subpath, next) ↦
                descend json (json.get_object_item node subpath)
                  (λ item. path_loop json (suc fuel) rest item next)
          ])
          ≡ some (walk node (if ok then (split path).0 ∷ given rest (split path).1 else []))) [
            | false ↦ refl
            | true ↦
                elim (strchr path)
                    as (λ o.
                      Cut path o
                      → descend json (json.get_object_item node (cut_at path o).0)
                          (λ item. path_loop json (suc fuel) rest item (cut_at path o).1)
                        ≡ some (walk node (kept rest (parts path)))) [
                          | none ↦ λ c.
                              descend-walk (json.get_object_item node path) []
                                (λ item. path_loop json (suc fuel) rest item none) (λ item. refl)
                              ∙ ap (λ ps. some (walk node (kept rest ps))) (sym c)
                          | some end ↦ λ c.
                              descend-walk (json.get_object_item node (take end path))
                                (given rest (parts (drop (suc end) path)))
                                (λ item.
                                  path_loop json (suc fuel) rest item (some (drop (suc end) path)))
                                (λ item.
                                  loop-walk fuel rest item (drop (suc end) path)
                                    (omega (arith, c.0, length-drop (suc end) path)))
                              ∙ ap (λ ps. some (walk node (kept rest ps))) (sym c.1)
                        ]
                  (strchr-Cut path)
          ]

  -- Each call of `strdup` or `strndup` gives memory or not. The node for a path is what is found by a
  -- search for each of its parts, one in the object of the other, up to the first part for which there
  -- is no memory; there is none if that is the first part. That is in a tree: the root is the same node
  -- as itself, and no node that is found in an object is the root. The loop ends.
  pub get_json_obj-walk :
      (memory : ℕ → Bool) (root : Node) (path : List ℕ)
      → json.same_node root root ≡ true
      → IsTree root
      → get_json_obj_from_path json memory root path ≡ some (below root (given memory (parts path)))
  unfolding get_json_obj_from_path
  get_json_obj-walk memory root path same tree =
      ap (Option.map (not_root json root))
        (loop-walk (suc (length path)) memory root path (omega arith))
      ∙ ap some (below_root root (given memory (parts path)) same tree)
