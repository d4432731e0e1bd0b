-- ===== src/Prelude/Table.antt =====
-- Dicts from texts to values of one type.
use gitvibe_dev.Prelude.{
  String, Option, none, some, List, [], ◌∷◌, ◌==◌, ◌≡◌, refl, eq_iff, eq_refl, if◌then◌else◌, arith,
}

-- A dict with texts for keys, in the order of insertion.
abbrev pub Table : Type 0 → Type 0
Table A = List (String × A)

module _ {A : Type 0} where
  -- `table.get(name)`
  abbrev pub at : String → Table A → Option A
  at name [] = none
  at name ((n, a) ∷ table) = if n == name then some a else at name table

  abbrev pub set_at : String → A → Table A → Table A
  set_at name a [] = (name, a) ∷ []
  set_at name a ((n, b) ∷ table) =
      let rest = set_at name a table in if n == name then (n, a) ∷ table else (n, b) ∷ rest

-- `table.get(name, [])` of a table of lists
abbrev pub rows : {A : Type 0} → String → Table (List A) → List A
rows name table = elim (at name table) [ none ↦ [] | some xs ↦ xs ]

-- The tables after a change.
module _ {A : Type 0} where
  pub at-set_at :
      (name other : String) (a : A) (table : Table A)
      → at other (set_at name a table) ≡ (if name == other then some a else at other table)
  at-set_at name other a [] = refl
  at-set_at name other a ((n, b) ∷ table) =
      ground (arith, eq_iff name other, eq_iff n name, eq_iff n other, at-set_at name other a table)

  pub set_at_twice :
      (name : String) (a : A) (table : Table A)
      → set_at name a (set_at name a table) ≡ set_at name a table
  set_at_twice name a [] = rw eq_refl
  set_at_twice name a ((n, b) ∷ table) = ground (arith, eq_iff n name, set_at_twice name a table)

pub rows-set_at :
    {A : Type 0} (name other : String) (xs : List A) (table : Table (List A))
    → rows other (set_at name xs table) ≡ (if name == other then xs else rows other table)
rows-set_at name other xs table = ground (arith, at-set_at name other xs table)
