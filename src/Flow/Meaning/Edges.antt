-- ===== src/Flow/Meaning/Edges.antt =====
-- The edge that a run takes out of a node.
use spoq.Base.{
  ℕ, Option, none, some, List, [], ◌∷◌, ◌≡◌, ◌≢◌, refl, ap, ap₂, sym, ◌∙◌, ◌⊎◌, inl, inr, String,
  not, if◌then◌else◌, Bool-cases, ◌>>=◌, subst,
}
use spoq.Dict.{get, erase}
use spoq.Dict.Valid.{IsValid}
use spoq.Dict.Laws.{get-erase_other}
use spoq.Flow.{Node, Edge, Graph}
use spoq.Flow.Branches.{ordered, last, replace_last, swap_ends, first_has_cond, is_none}
use spoq.Flow.Links.{Memᴰ}
use spoq.Flow.Meaning.{
  Machine, running, finished, Ends, Moves, taken, pick, along, leave, traverse, next, exec,
}
use spoq.Flow.Meaning.Runs.{resolve}
use spoq.Flow.Meaning.Choice.{leave-ordered}

last-Memᴰ : (t : ℕ) (xs : List ℕ) → Memᴰ (last t xs) (t ∷ xs)
unfolding last
last-Memᴰ t [] = Memᴰ.head refl
last-Memᴰ t (x ∷ xs) = Memᴰ.tail (last-Memᴰ x xs)

replace_last-Memᴰ : (t : ℕ) (xs : List ℕ) (z : ℕ) → Memᴰ z (replace_last t xs) → (z ≡ t) ⊎ Memᴰ z xs
unfolding replace_last
replace_last-Memᴰ t [] z m = elim m [ ]
replace_last-Memᴰ t (x ∷ []) z (Memᴰ.head e) = inl e
replace_last-Memᴰ t (x ∷ []) z (Memᴰ.tail m) = elim m [ ]
replace_last-Memᴰ t (x ∷ y ∷ ys) z (Memᴰ.head e) = inr (Memᴰ.head e)
replace_last-Memᴰ t (x ∷ y ∷ ys) z (Memᴰ.tail m) = elim (replace_last-Memᴰ t (y ∷ ys) z m) [
  | inl e ↦ inl e
  | inr m' ↦ inr (Memᴰ.tail m')
]

swap_ends-Memᴰ : (xs : List ℕ) (z : ℕ) → Memᴰ z (swap_ends xs) → Memᴰ z xs
swap_ends-Memᴰ [] z m = m
swap_ends-Memᴰ (t ∷ []) z m = m
swap_ends-Memᴰ (t ∷ x ∷ xs) z (Memᴰ.head e) =
    Memᴰ.tail (subst (λ y. Memᴰ y (x ∷ xs)) (sym e) (last-Memᴰ x xs))
swap_ends-Memᴰ (t ∷ x ∷ xs) z (Memᴰ.tail m) = elim (replace_last-Memᴰ t (x ∷ xs) z m) [
  | inl e ↦ Memᴰ.head e
  | inr m' ↦ Memᴰ.tail m'
]

pub ordered-Memᴰ : (h : ℕ → Edge) (xs : List ℕ) (z : ℕ) → Memᴰ z (ordered h xs) → Memᴰ z xs
unfolding ordered
ordered-Memᴰ h xs z m = elim (Bool-cases (first_has_cond h xs)) [
  | inl e ↦ rw e at m
  | inr e ↦ let q : Memᴰ z (swap_ends xs) = rw e at m in swap_ends-Memᴰ xs z q
]

module _ (M : Machine) where
  open M use {State, Result}

  pub pick-Memᴰ :
      (h : ℕ → Edge) (xs : List ℕ) (s : State) (z : ℕ) → pick M h xs s ≡ some z → Memᴰ z xs
  unfolding pick
  pick-Memᴰ h [] s z e = cc
  pick-Memᴰ h (x ∷ []) s z e = let p : x ≡ z = cc in Memᴰ.head (sym p)
  pick-Memᴰ h (x ∷ y ∷ ys) s z e = elim (Bool-cases (taken M (h x).cond s)) [
    | inl t ↦ let q : some x ≡ some z = rw t at e in let p : x ≡ z = cc in Memᴰ.head (sym p)
    | inr t ↦
        let q : pick M h (y ∷ ys) s ≡ some z = rw t at e in Memᴰ.tail (pick-Memᴰ h (y ∷ ys) s z q)
  ]

  module _ (h h' : ℕ → Edge) (same : (x : ℕ) → (h' x).cond ≡ (h x).cond) where
    ordered_same : (xs : List ℕ) → ordered h' xs ≡ ordered h xs
    unfolding ordered
    ordered_same [] = refl
    ordered_same (x ∷ xs) =
        ap (λ c. if not (is_none c) then x ∷ xs else swap_ends (x ∷ xs)) (same x)

    pick_same : (xs : List ℕ) (s : State) → pick M h' xs s ≡ pick M h xs s
    unfolding pick
    pick_same [] s = refl
    pick_same (x ∷ []) s = refl
    pick_same (x ∷ y ∷ ys) s = rw (same x, pick_same (y ∷ ys) s)

    -- Where each edge of a list does in `h'` what it does in `g`, resolved, so does the list.
    module _ (g : Graph) (n : String) where
      along-resolve :
          (o : Option ℕ) (s : State)
          → ((x : ℕ) → o ≡ some x → some (traverse M (h' x) s) ≡ resolve M g n (traverse M (h x) s))
          → some (along M h' s o) ≡ resolve M g n (along M h s o)
      along-resolve none s f = refl
      along-resolve (some x) s f = f x refl

      pub leave-resolve :
          (xs : List ℕ) (o : Ends M)
          → ((x : ℕ) (s : State)
              → Memᴰ x xs
              → some (traverse M (h' x) s) ≡ resolve M g n (traverse M (h x) s))
          → some (leave M h' xs o) ≡ resolve M g n (leave M h xs o)
      unfolding leave
      leave-resolve xs (finished r) f = refl
      leave-resolve xs (running s) f =
          ap some (leave-ordered M h' xs s)
          ∙ ap (λ o. some (along M h' s o))
              (pick_same (ordered h' xs) s ∙ ap (λ ys. pick M h ys s) (ordered_same xs))
          ∙ along-resolve (pick M h (ordered h xs) s) s
              (λ x e. f x s (ordered-Memᴰ h xs x (pick-Memᴰ h (ordered h xs) s x e)))
          ∙ ap (resolve M g n) (sym (leave-ordered M h xs s))

  abbrev pub enter : (ℕ → Edge) → State → Option Node → Option (List ℕ) → Option (Moves M)
  enter h s (some node) (some es) = some (leave M h es (exec M node.insts s))
  enter h s _ _ = none

  pub next-enter :
      (g : Graph) (m : String) (s : State)
      → next M g m s ≡ enter g.edge_at s (get m g.nodes) (get m g.edges)
  unfolding next
  next-enter g m s = go (get m g.nodes) (get m g.edges)
    where
      go :
          (a : Option Node) (b : Option (List ℕ))
          → (a >>= λ node. b >>= λ es. some (leave M g.edge_at es (exec M node.insts s)))
            ≡ enter g.edge_at s a b
      go none b = refl
      go (some node) none = refl
      go (some node) (some es) = refl

  -- The store of edges `h` carries on, in every node but `n`, each edge that `g` takes to `n`.
  abbrev pub CarriesOn : Graph → String → (ℕ → Edge) → Type 0
  CarriesOn g n h =
      (m : String) (es : List ℕ) (x : ℕ) (s : State)
      → m ≢ n
      → get m g.edges ≡ some es
      → Memᴰ x es
      → some (traverse M (h x) s) ≡ resolve M g n (traverse M (g.edge_at x) s)

  pub next-erase :
      (g g' : Graph) (n : String)
      → IsValid g.nodes
      → IsValid g.edges
      → g'.nodes ≡ erase n g.nodes
      → g'.edges ≡ erase n g.edges
      → ((x : ℕ) → (g'.edge_at x).cond ≡ (g.edge_at x).cond)
      → CarriesOn g n g'.edge_at
      → (m : String) (s : State) → m ≢ n
      → next M g' m s ≡ (next M g m s >>= resolve M g n)
  next-erase g g' n v w p q same carries m s h =
      next-enter g' m s
      ∙ ap₂ (enter g'.edge_at s) (ap (get m) p ∙ get-erase_other n m g.nodes v h)
          (ap (get m) q ∙ get-erase_other n m g.edges w h)
      ∙ go (get m g.nodes) (get m g.edges) refl
      ∙ ap (λ o. o >>= resolve M g n) (sym (next-enter g m s))
    where
      go :
          (a : Option Node) (b : Option (List ℕ))
          → get m g.edges ≡ b
          → enter g'.edge_at s a b ≡ (enter g.edge_at s a b >>= resolve M g n)
      go none b e = refl
      go (some node) none e = refl
      go (some node) (some es) e =
          leave-resolve g.edge_at g'.edge_at same g n es (exec M node.insts s)
            (λ x t k. carries m es x t h e k)
