-- ===== src/Coi/Fields.antt =====
-- The tests on field paths of src/optimizations/coi.cpp.
use spoq.Base.{
  true, ◌==◌, eq_iff, eq_refl, [], ◌∷◌, ◌++◌, ◌≡◌, ◌≢◌, refl, sym, ap, ap₂, ◌↔◌, Bool-cases, inl,
  inr, and_left, and_right,
}
use spoq.Coi.{Field, is_prefix, contains_field}

is_prefix-append : (g b : Field) → is_prefix g (g ++ b) ≡ true
is_prefix-append [] b = refl
is_prefix-append (x ∷ g) b = rw (eq_refl x) (is_prefix-append g b)

is_prefix-split : (g f : Field) → is_prefix g f ≡ true → (b : Field) × (f ≡ g ++ b)
is_prefix-split [] f h = (f, refl)
is_prefix-split (x ∷ g) [] h = cc
is_prefix-split (x ∷ g) (y ∷ f) h =
    let (b, e) = is_prefix-split g f (and_right (x == y) (is_prefix g f) h) in
    let q = (eq_iff x y).0 (and_left (x == y) (is_prefix g f) h) in
    (b, ap₂ (λ z l. z ∷ l) (sym q) e)

contains_field-split :
    (f g : Field) → contains_field f g ≡ true → (a : Field) × (b : Field) × (f ≡ a ++ (g ++ b))
unfolding contains_field
contains_field-split [] g h = cc
contains_field-split (x ∷ f) g h = elim (Bool-cases (is_prefix g (x ∷ f))) [
  | inl e ↦ let (b, p) = is_prefix-split g (x ∷ f) e in ([], b, p)
  | inr e ↦ let (a, b, p) = contains_field-split f g (rw e at h) in (x ∷ a, b, ap (λ l. x ∷ l) p)
]

contains_field-append : (a g b : Field) → g ≢ [] → contains_field (a ++ (g ++ b)) g ≡ true
unfolding contains_field
contains_field-append [] [] b h = absurd (h refl)
contains_field-append [] (x ∷ g) b h = rw (is_prefix-append (x ∷ g) b)
contains_field-append (y ∷ a) g b h = elim (Bool-cases (is_prefix g (y ∷ a ++ (g ++ b)))) [
  | inl e ↦ rw e
  | inr e ↦ rw e (contains_field-append a g b h)
]

-- A path contains a path that is not empty exactly when it has it as a segment, in one piece.
pub contains_field_iff :
    (f g : Field)
    → g ≢ []
    → (contains_field f g ≡ true) ↔ ((a : Field) × (b : Field) × (f ≡ a ++ (g ++ b)))
contains_field_iff f g h =
    (contains_field-split f g, λ (a, b, e). rw e (contains_field-append a g b h))
