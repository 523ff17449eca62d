-- ===== src/Dict.antt =====
-- The template `dict` of src/frontend/IRLoader/control_flow.cpp, a map that remembers the order of
-- insertion, with names for keys.
--
-- `order` is the linked list, whose elements have an address, and `index` is the hash map from keys
-- to iterators: an iterator is an address. `none` stands for an exception or a null iterator.
pub mod Valid
pub mod Refines
pub mod Laws
use spoq.Base.{
  ℕ, suc, Bool, true, false, Option, none, some, List, [], ◌∷◌, ◌++◌, map, String, ◌==◌, nat_eq,
  if◌then◌else◌, map_option, and_then,
}

pub record Slot {ℓ} (V : Type ℓ) : Type ℓ where
  pub address : ℕ
  pub key : String
  pub value : V

pub record Dict {ℓ} (V : Type ℓ) : Type ℓ where
  pub order : List (Slot V)
  pub index : List (String × ℕ)
  pub fresh : ℕ

abbrev pub empty_dict {ℓ} : {V : Type ℓ} → Dict V
empty_dict = record { order = []; index = []; fresh = 0 }

-- `map.find`
unfoldable pub find : String → List (String × ℕ) → Option ℕ
find k [] = none
find k (l ∷ ls) = if l.0 == k then some l.1 else find k ls

unfoldable pub unlink : String → List (String × ℕ) → List (String × ℕ)
unlink k [] = []
unlink k (l ∷ ls) = if l.0 == k then ls else l ∷ unlink k ls

abbrev pub is_some : Option ℕ → Bool
is_some none = false
is_some (some i) = true

module _ {ℓ} {V : Type ℓ} where
  abbrev pub with_value : V → Slot V → Slot V
  with_value v s = record s { value = v }

  -- The element at an iterator: read, written and erased.
  unfoldable pub value_at : ℕ → List (Slot V) → Option V
  value_at i [] = none
  value_at i (s ∷ ss) = if nat_eq i s.address then some s.value else value_at i ss

  unfoldable pub set_at : ℕ → V → List (Slot V) → List (Slot V)
  set_at i v [] = []
  set_at i v (s ∷ ss) = if nat_eq i s.address then with_value v s ∷ ss else s ∷ set_at i v ss

  unfoldable pub erase_at : ℕ → List (Slot V) → List (Slot V)
  erase_at i [] = []
  erase_at i (s ∷ ss) = if nat_eq i s.address then ss else s ∷ erase_at i ss

  abbrev pub push_back : String → V → Dict V → Dict V
  push_back k v d = record {
    order = d.order ++ record { address = d.fresh; key = k; value = v } ∷ [];
    index = d.index ++ (k, d.fresh) ∷ [];
    fresh = suc d.fresh;
  }

  abbrev pub insert_found : String → V → Dict V → Option ℕ → Dict V
  insert_found k v d none = push_back k v d
  insert_found k v d (some i) = record d { order = set_at i v d.order }

  unfoldable pub insert : String → V → Dict V → Dict V
  insert k v d = insert_found k v d (find k d.index)

  unfoldable pub contains : String → Dict V → Bool
  contains k d = is_some (find k d.index)

  -- `get`, and `operator[]` of a const dictionary.
  unfoldable pub get : String → Dict V → Option V
  get k d = and_then (find k d.index) (λ i. value_at i d.order)

  abbrev pub erase_found : String → Dict V → Option ℕ → Dict V
  erase_found k d none = d
  erase_found k d (some i) = record d { order = erase_at i d.order; index = unlink k d.index }

  unfoldable pub erase : String → Dict V → Dict V
  erase k d = erase_found k d (find k d.index)

  abbrev pub access_found : String → V → Dict V → Option ℕ → Dict V
  access_found k v d none = push_back k v d
  access_found k v d (some i) = d

  -- The dictionary that `operator[]` leaves, where `v` is the default-constructed value: what it
  -- returns is the value of the key there.
  unfoldable pub access : String → V → Dict V → Dict V
  access k v d = access_found k v d (find k d.index)

unfoldable pub length {ℓ} : {A : Type ℓ} → List A → ℕ
length [] = 0
length (x ∷ xs) = suc (length xs)

unfoldable pub size {ℓ} : {V : Type ℓ} → Dict V → ℕ
size d = length d.index

abbrev pub entry {ℓ} : {V : Type ℓ} → Slot V → String × V
entry s = (s.key, s.value)

-- What an iteration from `begin` to `end` visits.
unfoldable pub entries {ℓ} : {V : Type ℓ} → Dict V → List (String × V)
entries d = map entry d.order
