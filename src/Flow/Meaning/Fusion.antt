-- ===== src/Flow/Meaning/Fusion.antt =====
-- What a node does after the edge that leads to it, where
-- src/frontend/IRLoader/control_flow.cpp makes it part of this edge.
use spoq.Base.{
  ℕ, Option, none, some, [], ◌∷◌, ◌≡◌, ◌≢◌, refl, ap, sym, ◌∙◌, String, ◌==◌, nat_eq, nat_eq→eq,
  Bool-cases, inl, inr, eq_refl,
}
use spoq.Dict.{get}
use spoq.Dict.Laws.{not_eq→false}
use spoq.Ir.{IrValue, IrInsts, append}
use spoq.Flow.{Edge, Graph, write}
use spoq.Flow.Links.{Memᴰ, IsLinked}
use spoq.Flow.Links.Fusion.{has_name, only_edge, write_here, write_other, differ}
use spoq.Flow.Meaning.{
  Machine, running, finished, Ends, continue, exec, exec-append, pick, arrive, traverse, along,
  choose_at, choose, leave, next,
}
use spoq.Flow.Meaning.Runs.{resolve}
use spoq.Flow.Meaning.Edges.{CarriesOn}

module _ (M : Machine) where
  open M use {State, Result}

  -- A node that all moves come from.
  pub leave_none : (h : ℕ → Edge) (o : Ends M) → leave M h [] o ≡ arrive M "" o
  unfolding leave choose
  leave_none h (running s) = refl
  leave_none h (finished r) = refl

  pub leave_one :
      (h : ℕ → Edge) (y : ℕ) (o : Ends M)
      → leave M h (y ∷ []) o ≡ arrive M (h y).next (continue M (exec M (h y).insts) o)
  unfolding leave choose pick traverse
  leave_one h y (running s) = go (h y).cond
    where
      go : (c : Option IrValue) → along M h s (choose_at M h c y [] s) ≡ traverse M (h y) s
      go none = refl
      go (some c) = refl
  leave_one h y (finished r) = refl

  -- An edge whose end does what the node does that it led to.
  pub traverse_on :
      (g : Graph) (n : String) (e e' : Edge) (tail : IrInsts)
      → n ≢ ""
      → e.next ≡ n
      → e'.insts ≡ append e.insts tail
      → ((t : State) → next M g n t ≡ some (arrive M e'.next (exec M tail t)))
      → (s : State) → some (traverse M e' s) ≡ resolve M g n (traverse M e s)
  unfolding traverse
  traverse_on g n e e' tail named p q k s =
      ap (λ is. some (arrive M e'.next (exec M is s))) q
      ∙ ap (λ o. some (arrive M e'.next o)) (exec-append M e.insts tail s)
      ∙ go (exec M e.insts s)
      ∙ ap (λ t. resolve M g n (arrive M t (exec M e.insts s))) (sym p)
    where
      go :
          (o : Ends M)
          → some (arrive M e'.next (continue M (exec M tail) o)) ≡ resolve M g n (arrive M n o)
      go (running t) = rw (not_eq→false n "" named, eq_refl n) (sym (k t))
      go (finished r) = refl

  -- An edge that does not lead to the node.
  pub traverse_past :
      (g : Graph) (n : String) (e : Edge) (s : State)
      → e.next ≢ n
      → some (traverse M e s) ≡ resolve M g n (traverse M e s)
  unfolding traverse
  traverse_past g n e s h = go (exec M e.insts s)
    where
      go : (o : Ends M) → some (arrive M e.next o) ≡ resolve M g n (arrive M e.next o)
      go (running t) = elim (Bool-cases (e.next == "")) [
        | inl q ↦ rw q
        | inr q ↦ rw (q, not_eq→false e.next n h)
      ]
      go (finished r) = refl

  -- One edge leads to a node, and goes on as the node does: then a run that comes to the node goes
  -- along this edge.
  module _ (g : Graph) (w : IsLinked g) (n : String) (b : ℕ)
      (links : get n g.backwards ≡ some (b ∷ [])) (e' : Edge) (tail : IrInsts) where
    abbrev into : ℕ
    into = (g.back_at b).edge

    abbrev pub GoesOn : Type 0
    GoesOn =
        (e'.insts ≡ append (g.edge_at into).insts tail)
        × ((t : State) → next M g n t ≡ some (arrive M e'.next (exec M tail t)))

    pub carries_write : GoesOn → CarriesOn M g n (write into e' g.edge_at)
    carries_write k m es y s h e i =
        let d = w.departs n (b ∷ []) b links (Memᴰ.head refl) in
        elim (Bool-cases (nat_eq into y)) [
          | inl q ↦
              let p = nat_eq→eq into y q in
              ap (λ f. some (traverse M f s)) (write_here into y e' g.edge_at p)
              ∙ traverse_on g n (g.edge_at into) e' tail (has_name g w n (b ∷ []) links) d.leads k.0
                  k.1 s
              ∙ ap (λ z. resolve M g n (traverse M (g.edge_at z) s)) p
          | inr q ↦
              ap (λ f. some (traverse M f s)) (write_other into y e' g.edge_at q)
              ∙ traverse_past g n (g.edge_at y) s
                  (λ p. let z = (only_edge g w n b m es y links e i p).0 in differ into y q z)
        ]

    pub cond_write :
        e'.cond ≡ (g.edge_at into).cond
        → (y : ℕ) → (write into e' g.edge_at y).cond ≡ (g.edge_at y).cond
    cond_write p y = elim (Bool-cases (nat_eq into y)) [
      | inl q ↦
          let r = nat_eq→eq into y q in
          ap (λ f. f.cond) (write_here into y e' g.edge_at r) ∙ p ∙ ap (λ z. (g.edge_at z).cond) r
      | inr q ↦ ap (λ f. f.cond) (write_other into y e' g.edge_at q)
    ]
