-- ===== src/Dict/Valid.antt =====
-- What the dictionary of src/frontend/IRLoader/control_flow.cpp keeps between its list and its
-- index.
use spoq.Base.{
  ℕ, suc, ◌<◌, true, false, Option, none, some, List, [], ◌∷◌, ◌++◌, ◌≡◌, refl, ap, map, String,
  ◌==◌, nat_eq, Bool-cases, Option-cases, inl, inr, arith, subst, sym, ◌∙◌, eq_iff, eq_refl,
}
use spoq.Dict.{
  Slot, Dict, find, unlink, set_at, erase_at, push_back, insert, erase, access, empty_dict,
}

module _ {ℓ} {V : Type ℓ} where
  abbrev pub link : Slot V → String × ℕ
  link s = (s.key, s.address)

abbrev pub NoKey : String → List (String × ℕ) → Type 0
NoKey k [] = Unit
NoKey k (l ∷ ls) = (l.0 == k ≡ false) × NoKey k ls

abbrev pub NoAddress : ℕ → List (String × ℕ) → Type 0
NoAddress i [] = Unit
NoAddress i (l ∷ ls) = (nat_eq i l.1 ≡ false) × NoAddress i ls

abbrev pub Below : ℕ → List (String × ℕ) → Type 0
Below n [] = Unit
Below n (l ∷ ls) = (l.1 < n) × Below n ls

-- No key and no address twice.
abbrev pub Distinct : List (String × ℕ) → Type 0
Distinct [] = Unit
Distinct (l ∷ ls) = NoKey l.0 ls × NoAddress l.1 ls × Distinct ls

-- The index has the keys and addresses of the elements, all different, and the next address is new.
pub record IsValid {ℓ} {V : Type ℓ} (d : Dict V) : Type 0 where
  pub linked : d.index ≡ map link d.order
  pub distinct : Distinct d.index
  pub below : Below d.fresh d.index

find-NoKey : (k : String) (ls : List (String × ℕ)) → find k ls ≡ none → NoKey k ls
unfolding find
find-NoKey k [] h = tt
find-NoKey k (l ∷ ls) h = elim (Bool-cases (l.0 == k)) [
  | inl e ↦ let q : some l.1 ≡ none = rw e at h in cc
  | inr e ↦ let q : find k ls ≡ none = rw e at h in (e, find-NoKey k ls q)
]

-- A link that was found does not have an address that none has.
pub found_other :
    (k : String) (ls : List (String × ℕ)) (i j : ℕ)
    → find k ls ≡ some i
    → NoAddress j ls
    → nat_eq i j ≡ false
unfolding find
found_other k [] i j h n = cc
found_other k (l ∷ ls) i j h n = elim (Bool-cases (l.0 == k)) [
  | inl e ↦ let q : some l.1 ≡ some i = rw e at h in let p : l.1 ≡ i = cc in ground arith
  | inr e ↦ let q : find k ls ≡ some i = rw e at h in found_other k ls i j q n.1
]

NoKey-unlink : (m k : String) (ls : List (String × ℕ)) → NoKey m ls → NoKey m (unlink k ls)
unfolding unlink
NoKey-unlink m k [] h = tt
NoKey-unlink m k (l ∷ ls) h = elim (Bool-cases (l.0 == k)) [
  | inl e ↦ rw e h.1
  | inr e ↦ rw e (h.0, NoKey-unlink m k ls h.1)
]

NoAddress-unlink :
    (i : ℕ) (k : String) (ls : List (String × ℕ)) → NoAddress i ls → NoAddress i (unlink k ls)
unfolding unlink
NoAddress-unlink i k [] h = tt
NoAddress-unlink i k (l ∷ ls) h = elim (Bool-cases (l.0 == k)) [
  | inl e ↦ rw e h.1
  | inr e ↦ rw e (h.0, NoAddress-unlink i k ls h.1)
]

Below-unlink : (n : ℕ) (k : String) (ls : List (String × ℕ)) → Below n ls → Below n (unlink k ls)
unfolding unlink
Below-unlink n k [] h = tt
Below-unlink n k (l ∷ ls) h = elim (Bool-cases (l.0 == k)) [
  | inl e ↦ rw e h.1
  | inr e ↦ rw e (h.0, Below-unlink n k ls h.1)
]

Distinct-unlink : (k : String) (ls : List (String × ℕ)) → Distinct ls → Distinct (unlink k ls)
unfolding unlink
Distinct-unlink k [] h = tt
Distinct-unlink k (l ∷ ls) h = elim (Bool-cases (l.0 == k)) [
  | inl e ↦ rw e h.2
  | inr e ↦
      rw e (NoKey-unlink l.0 k ls h.0, NoAddress-unlink l.1 k ls h.1, Distinct-unlink k ls h.2)
]

not_eq_sym : (s t : String) → s == t ≡ false → t == s ≡ false
not_eq_sym s t h = elim (Bool-cases (t == s)) [
  | inl e ↦
      let p : t ≡ s = (eq_iff t s).0 e in
      let q : s == s ≡ false = rw p at h in let q' = eq_refl s in cc
  | inr e ↦ e
]

NoKey-append :
    (m k : String) (i : ℕ) (ls : List (String × ℕ))
    → NoKey m ls
    → k == m ≡ false
    → NoKey m (ls ++ (k, i) ∷ [])
NoKey-append m k i [] h e = (e, tt)
NoKey-append m k i (l ∷ ls) h e = (h.0, NoKey-append m k i ls h.1 e)

NoAddress-append :
    (j : ℕ) (k : String) (i : ℕ) (ls : List (String × ℕ))
    → NoAddress j ls
    → nat_eq j i ≡ false
    → NoAddress j (ls ++ (k, i) ∷ [])
NoAddress-append j k i [] h e = (e, tt)
NoAddress-append j k i (l ∷ ls) h e = (h.0, NoAddress-append j k i ls h.1 e)

below_other : (i n : ℕ) → i < n → nat_eq i n ≡ false
below_other i n h = ground arith

Distinct-append :
    (k : String) (i : ℕ) (ls : List (String × ℕ))
    → Distinct ls
    → NoKey k ls
    → Below i ls
    → Distinct (ls ++ (k, i) ∷ [])
Distinct-append k i [] h n b = (tt, tt, tt)
Distinct-append k i (l ∷ ls) h n b = (
  NoKey-append l.0 k i ls h.0 (not_eq_sym l.0 k n.0),
  NoAddress-append l.1 k i ls h.1 (below_other l.1 i b.0),
  Distinct-append k i ls h.2 n.1 b.1,
)

Below-append :
    (k : String) (n : ℕ) (ls : List (String × ℕ)) → Below n ls → Below (suc n) (ls ++ (k, n) ∷ [])
Below-append k n [] h = (omega arith, tt)
Below-append k n (l ∷ ls) h = (let q = h.0 in omega arith, Below-append k n ls h.1)

pub same_address : (a i : ℕ) → some a ≡ some i → nat_eq i a ≡ true
same_address a i h = let p : a ≡ i = cc in ground arith

module _ {ℓ} {V : Type ℓ} where
  link-erase_at :
      (k : String) (i : ℕ) (ss : List (Slot V))
      → Distinct (map link ss)
      → find k (map link ss) ≡ some i
      → unlink k (map link ss) ≡ map link (erase_at i ss)
  unfolding find erase_at unlink
  link-erase_at k i [] d h = cc
  link-erase_at k i (s ∷ ss) d h = elim (Bool-cases (s.key == k)) [
    | inl e ↦
        let q : some s.address ≡ some i = rw e at h in
        let p : nat_eq i s.address ≡ true = (same_address s.address i q) in rw (e, p)
    | inr e ↦
        let q : find k (map link ss) ≡ some i = rw e at h in
        rw (e, found_other k (map link ss) i s.address q d.1)
          (ap (λ es. link s ∷ es) (link-erase_at k i ss d.2 q))
  ]

  link-set_at : (v : V) (i : ℕ) (ss : List (Slot V)) → map link (set_at i v ss) ≡ map link ss
  unfolding set_at
  link-set_at v i [] = refl
  link-set_at v i (s ∷ ss) = elim (Bool-cases (nat_eq i s.address)) [
    | inl e ↦ rw e
    | inr e ↦ rw e (ap (λ es. link s ∷ es) (link-set_at v i ss))
  ]

  link-append :
      (ss : List (Slot V)) (s : Slot V) → map link ss ++ link s ∷ [] ≡ map link (ss ++ s ∷ [])
  link-append [] s = refl
  link-append (t ∷ ss) s = ap (λ es. link t ∷ es) (link-append ss s)

  pub link_found :
      (k : String) (d : Dict V) (o : Option ℕ)
      → IsValid d
      → find k d.index ≡ o
      → find k (map link d.order) ≡ o
  link_found k d o v h = subst (λ ls. find k ls ≡ o) v.linked h

  pub link-Distinct : (d : Dict V) → IsValid d → Distinct (map link d.order)
  link-Distinct d v = subst Distinct v.linked v.distinct

  push_back-IsValid :
      (k : String) (v : V) (d : Dict V)
      → IsValid d
      → find k d.index ≡ none
      → IsValid (push_back k v d)
  push_back-IsValid k v d w h = record {
    linked =
        ap (λ ls. ls ++ (k, d.fresh) ∷ []) w.linked
        ∙ link-append d.order (record { address = d.fresh; key = k; value = v });
    distinct = Distinct-append k d.fresh d.index w.distinct (find-NoKey k d.index h) w.below;
    below = Below-append k d.fresh d.index w.below;
  }

  pub insert-IsValid : (k : String) (v : V) (d : Dict V) → IsValid d → IsValid (insert k v d)
  unfolding insert
  insert-IsValid k v d w = elim (Option-cases (find k d.index)) [
    | inl h ↦ rw h (push_back-IsValid k v d w h)
    | inr (i, h) ↦ rw h (record {
      linked = w.linked ∙ sym (link-set_at v i d.order);
      distinct = w.distinct;
      below = w.below;
    })
  ]

  pub erase-IsValid : (k : String) (d : Dict V) → IsValid d → IsValid (erase k d)
  unfolding erase
  erase-IsValid k d w = elim (Option-cases (find k d.index)) [
    | inl h ↦ rw h w
    | inr (i, h) ↦ rw h (record {
      linked =
          ap (unlink k) w.linked
          ∙ link-erase_at k i d.order (link-Distinct d w) (link_found k d (some i) w h);
      distinct = Distinct-unlink k d.index w.distinct;
      below = Below-unlink d.fresh k d.index w.below;
    })
  ]

  access-IsValid : (k : String) (v : V) (d : Dict V) → IsValid d → IsValid (access k v d)
  unfolding access
  access-IsValid k v d w = elim (Option-cases (find k d.index)) [
    | inl h ↦ rw h (push_back-IsValid k v d w h)
    | inr (i, h) ↦ rw h w
  ]

  -- Every operation keeps the index and the list of a dictionary in agreement: the same keys in the
  -- same order with the addresses of their elements, no key or address twice, and a new next
  -- address. The empty dictionary has this.
  pub operations-IsValid :
      (k : String) (v : V) (d : Dict V)
      → IsValid d
      → IsValid (insert k v d)
        × IsValid (erase k d)
        × IsValid (access k v d)
        × IsValid (empty_dict {V = V})
  operations-IsValid k v d w = (
    insert-IsValid k v d w,
    erase-IsValid k d w,
    access-IsValid k v d w,
    record { linked = refl; distinct = tt; below = tt },
  )
