-- ===== src/Scope.antt =====
-- Which names a specification mentions: `free_vars`, `get_vars_from_pattern` and `contains_vars`
-- of src/optimizations/rules.cpp, with the local functions on patterns there.
--
-- A set of names is a list. `known` is `Project::is_known_symbol`.
pub mod Meaning
pub mod Free
use spoq.Base.{String, Bool, false, not, ◌&&◌, ◌||◌, List, [], ◌∷◌, ◌==◌, if◌then◌else◌, member}
use spoq.Ast.{
  SpecNode, symbol, expr, matching, rely, anno, branch, forall, exists, Op, node_op, SpecNodes, nil,
  cons, Arms, no_arms, arm, Args, no_args, arg, hypothesis, is_unknown,
}

-- `set.erase(x)`
abbrev pub erase : String → List String → List String
erase x [] = []
erase x (y ∷ ys) = if y == x then erase x ys else y ∷ erase x ys

-- `std::set_difference(xs, ys)`
abbrev pub difference : List String → List String → List String
difference [] ys = []
difference (x ∷ xs) ys = if member x ys then difference xs ys else x ∷ difference xs ys

abbrev pub erase_all : List String → List String → List String
erase_all [] free = free
erase_all (x ∷ xs) free = erase_all xs (erase x free)

-- `exists_in_pattern` of `subst`.
unfoldable mutual
  pub exists_in_pattern : String → SpecNode → Bool
  exists_in_pattern x (symbol y t) = y == x
  exists_in_pattern x (expr o es t) = exists_in_patterns x es
  exists_in_pattern x _ = false

  pub exists_in_patterns : String → SpecNodes → Bool
  exists_in_patterns x nil = false
  exists_in_patterns x (cons n ns) = exists_in_pattern x n || exists_in_patterns x ns

-- `collect_symbols` of `free_vars`: adds the symbols of a pattern to a set.
unfoldable mutual
  pub collect_symbols : SpecNode → List String → List String
  collect_symbols (symbol x t) found = x ∷ found
  collect_symbols (expr o es t) found = collect_all_symbols es found
  collect_symbols _ found = found

  pub collect_all_symbols : SpecNodes → List String → List String
  collect_all_symbols nil found = found
  collect_all_symbols (cons n ns) found = collect_all_symbols ns (collect_symbols n found)

abbrev pub arg_names : Args → List String
arg_names no_args = []
arg_names (arg x t vs) = x ∷ arg_names vs
arg_names (hypothesis x e vs) = x ∷ arg_names vs

module _ (known : String → Bool) where
  -- One set is threaded through the whole walk: names are added to it and taken from it.
  unfoldable mutual
    pub free_vars : SpecNode → List String → List String
    free_vars (symbol x t) free = if known x then free else x ∷ free
    free_vars (matching src arms t) free = free_vars_arms arms (free_vars src free)
    free_vars (forall vs b t) free = erase_all (arg_names vs) (free_vars b free)
    free_vars (exists vs b t) free = erase_all (arg_names vs) (free_vars b free)
    free_vars (expr o es t) free = free_vars_nodes es free
    free_vars (rely p b t) free = free_vars b (free_vars p free)
    free_vars (anno p b t) free = free_vars b (free_vars p free)
    free_vars (branch c a b t) free = free_vars b (free_vars a (free_vars c free))
    free_vars _ free = free

    pub free_vars_nodes : SpecNodes → List String → List String
    free_vars_nodes nil free = free
    free_vars_nodes (cons n ns) free = free_vars_nodes ns (free_vars n free)

    pub free_vars_arms : Arms → List String → List String
    free_vars_arms no_arms free = free
    free_vars_arms (arm p b rest) free =
        free_vars_arms rest (erase_all (collect_symbols p []) (free_vars b free))

  -- The variables of a pattern: only those with a type.
  unfoldable mutual
    pub get_vars_from_pattern : SpecNode → List String → List String
    get_vars_from_pattern (symbol x t) vars =
        if not (known x) && not (is_unknown t) then x ∷ vars else vars
    get_vars_from_pattern (expr o es t) vars = get_vars_from_patterns es (get_vars_from_op o vars)
    get_vars_from_pattern _ vars = vars

    pub get_vars_from_op : Op → List String → List String
    get_vars_from_op (node_op n) vars = get_vars_from_pattern n vars
    get_vars_from_op _ vars = vars

    pub get_vars_from_patterns : SpecNodes → List String → List String
    get_vars_from_patterns nil vars = vars
    get_vars_from_patterns (cons n ns) vars =
        get_vars_from_patterns ns (get_vars_from_pattern n vars)

  unfoldable mutual
    pub contains_vars : SpecNode → List String → Bool
    contains_vars (symbol x t) vars = member x vars
    contains_vars (expr o es t) vars = contains_vars_op o vars || contains_vars_nodes es vars
    contains_vars (matching src arms t) vars =
        contains_vars src vars || contains_vars_arms arms vars
    contains_vars (rely p b t) vars = contains_vars p vars || contains_vars b vars
    contains_vars (anno p b t) vars = contains_vars p vars || contains_vars b vars
    contains_vars (branch c a b t) vars =
        contains_vars c vars || (contains_vars a vars || contains_vars b vars)
    contains_vars (forall vs b t) vars = contains_vars b vars
    contains_vars (exists vs b t) vars = contains_vars b vars
    contains_vars _ vars = false

    pub contains_vars_op : Op → List String → Bool
    contains_vars_op (node_op n) vars = contains_vars n vars
    contains_vars_op _ vars = false

    pub contains_vars_nodes : SpecNodes → List String → Bool
    contains_vars_nodes nil vars = false
    contains_vars_nodes (cons n ns) vars = contains_vars n vars || contains_vars_nodes ns vars

    pub contains_vars_arms : Arms → List String → Bool
    contains_vars_arms no_arms vars = false
    contains_vars_arms (arm p b rest) vars =
        contains_vars b (difference vars (get_vars_from_pattern p []))
        || contains_vars_arms rest vars
