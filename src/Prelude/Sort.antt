-- ===== src/Prelude/Sort.antt =====
-- What `sorted` makes of a set of texts, and of values that have a name.
use Prim.Native.Nat.{Ordering}
use Prim.Native.String.{compare}
use gitvibe_dev.Prelude.{String, List, [], ◌∷◌}

-- `sorted` of a set of texts: in order, each once
abbrev pub insert_sorted : String → List String → List String
insert_sorted s [] = s ∷ []
insert_sorted s (t ∷ ts) =
    let rest = insert_sorted s ts in
    elim (compare s t) [ Ordering.lt ↦ s ∷ t ∷ ts | Ordering.eq ↦ t ∷ ts | Ordering.gt ↦ t ∷ rest ]

abbrev pub sorted_set : List String → List String
sorted_set [] = []
sorted_set (s ∷ ss) = insert_sorted s (sorted_set ss)

-- `sorted(values, key=name)`: values of one name stay in their order.
module _ {A : Type 0} (name : A → String) where
  abbrev insert_by : A → List A → List A
  insert_by x [] = x ∷ []
  insert_by x (y ∷ ys) =
      let rest = insert_by x ys in
      elim (compare (name x) (name y)) [
        | Ordering.lt ↦ x ∷ y ∷ ys
        | Ordering.eq ↦ x ∷ y ∷ ys
        | Ordering.gt ↦ y ∷ rest
      ]

  abbrev pub sort_by : List A → List A
  sort_by [] = []
  sort_by (x ∷ xs) = insert_by x (sort_by xs)
