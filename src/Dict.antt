-- ===== src/Dict.antt =====
-- Go's maps as association lists, under a test for equal keys. Go visits a map's entries in an
-- order that it does not specify; where the source ranges over a map, the order is a parameter.
use tradesphere.Base.{
  ℕ, ◌≡◌, refl, Bool, Option, none, some, List, [], ◌∷◌, map, if◌then◌else◌, ◌==◌, arith,
}

abbrev pub Dict : Type 0 → Type 0 → Type 0
Dict K V = List (K × V)

module _ {K V : Type 0} (eq : K → K → Bool) where
  -- `d[k]`
  abbrev pub lookup : K → Dict K V → Option V
  lookup k [] = none
  lookup k ((j, v) ∷ d) = if eq j k then some v else lookup k d

  -- `d[k] = v`
  abbrev pub insert : K → V → Dict K V → Dict K V
  insert k v [] = (k, v) ∷ []
  insert k v ((j, u) ∷ d) = if eq j k then (j, v) ∷ d else (j, u) ∷ insert k v d

  -- `delete(d, k)`
  abbrev pub delete : K → Dict K V → Dict K V
  delete k [] = []
  delete k ((j, u) ∷ d) = let rest = delete k d in if eq j k then rest else (j, u) ∷ rest

abbrev pub values : {K V : Type 0} → Dict K V → List V
values d = map (λ e. e.1) d

-- The test for equal numbers
abbrev pub nat_eq : ℕ → ℕ → Bool
nat_eq a b = a == b

module _ {V : Type 0} where
  pub lookup-insert :
      (k j : ℕ) (v : V) (d : Dict ℕ V)
      → lookup nat_eq j (insert nat_eq k v d) ≡ (if k == j then some v else lookup nat_eq j d)
  lookup-insert k j v [] = refl
  lookup-insert k j v ((i, u) ∷ d) = ground (arith, lookup-insert k j v d)
