-- ===== src/Flow/Meaning/Choice.antt =====
-- The edge that is taken from a node against the order in which `rule_merge_branches` of
-- src/frontend/IRLoader/control_flow.cpp nests the conditions.
use spoq.Base.{ℕ, Option, none, some, List, [], ◌∷◌, ◌≡◌, refl, ap, ap₂, not, if◌then◌else◌}
use spoq.Ir.{IrValue}
use spoq.Flow.{Edge}
use spoq.Flow.Branches.{ordered, last, replace_last, swap_ends, is_none}
use spoq.Flow.Meaning.{
  Machine, running, pick, taken, final, between, first_default, choose_at, choose, along, leave,
}

module _ (M : Machine) where
  open M use {State}

  final-last : (y : ℕ) (ys : List ℕ) → final M y ys ≡ last y ys
  unfolding last
  final-last y [] = refl
  final-last y (z ∷ zs) = final-last z zs

  between-replace_last :
      (h : ℕ → Edge) (d y : ℕ) (ys : List ℕ) (s : State)
      → between M h d (y ∷ ys) s ≡ pick M h (replace_last d (y ∷ ys)) s
  unfolding between pick replace_last
  between-replace_last h d y [] s = refl
  between-replace_last h d y (z ∷ []) s = refl
  between-replace_last h d y (z ∷ w ∷ ws) s =
      ap (λ o. if taken M (h y).cond s then some y else o) (between-replace_last h d z (w ∷ ws) s)

  first_default-swap_ends :
      (h : ℕ → Edge) (x : ℕ) (ys : List ℕ) (s : State)
      → first_default M h x ys s ≡ pick M h (swap_ends (x ∷ ys)) s
  unfolding pick replace_last
  first_default-swap_ends h x [] s = refl
  first_default-swap_ends h x (y ∷ []) s = unfold between last in refl
  first_default-swap_ends h x (y ∷ z ∷ zs) s =
      ap₂ (λ t o. if taken M (h t).cond s then some t else o) (final-last y (z ∷ zs))
        (between-replace_last h x y (z ∷ zs) s)

  pub choose-ordered :
      (h : ℕ → Edge) (es : List ℕ) (s : State) → choose M h es s ≡ pick M h (ordered h es) s
  unfolding choose ordered
  choose-ordered h [] s = unfold pick in refl
  choose-ordered h (x ∷ xs) s = go (h x).cond refl
    where
      go :
          (c : Option IrValue)
          → (h x).cond ≡ c
          → choose_at M h (h x).cond x xs s
            ≡ pick M h (if not (is_none (h x).cond) then x ∷ xs else swap_ends (x ∷ xs)) s
      go none e = rw e (first_default-swap_ends h x xs s)
      go (some c) e = rw e

  -- The edge is the first that holds in the order of the rule.
  pub leave-ordered :
      (h : ℕ → Edge) (es : List ℕ) (s : State)
      → leave M h es (running s) ≡ along M h s (pick M h (ordered h es) s)
  unfolding leave
  leave-ordered h es s = ap (along M h s) (choose-ordered h es s)
