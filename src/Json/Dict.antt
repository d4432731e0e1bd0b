-- ===== src/Json/Dict.antt =====
-- A Python dict with text keys: `d.get(k)`, `d[k] = v`, `del d[k]`. A write to a key that is there
-- keeps its place.
use gitvibe_dev.Prelude.{
  String, ◌≡◌, refl, Bool, true, false, Option, none, some, List, [], ◌∷◌, arith, ◌==◌, eq_iff,
  eq_refl, if◌then◌else◌,
}
use gitvibe_dev.Json.{Value, Fields, end, field}

abbrev pub get : String → Fields → Option Value
get k end = none
get k (field j v d) = if j == k then some v else get k d

abbrev pub put : String → Value → Fields → Fields
put k v end = field k v end
put k v (field j w d) = let rest = put k v d in if j == k then field k v d else field j w rest

abbrev pub del : String → Fields → Fields
del k end = end
del k (field j v d) = let rest = del k d in if j == k then rest else field j v rest

abbrev pub has : String → Fields → Bool
has k d = elim (get k d) [ none ↦ false | some _ ↦ true ]

-- `d.get(k, default)`
abbrev pub get_or : String → Value → Fields → Value
get_or k v d = elim (get k d) [ none ↦ v | some w ↦ w ]

-- `{**a, **b}`
abbrev pub merge : Fields → Fields → Fields
merge a end = a
merge a (field k v b) = merge (put k v a) b

abbrev pub keys : Fields → List String
keys end = []
keys (field k v d) = k ∷ keys d

pub get-put :
    (k j : String) (v : Value) (d : Fields)
    → get j (put k v d) ≡ (if k == j then some v else get j d)
get-put k j v end = refl
get-put k j v (field i w d) = ground (arith, eq_iff k j, eq_iff i k, eq_iff i j, get-put k j v d)

pub get_or-put :
    (k j : String) (v w : Value) (d : Fields)
    → get_or j w (put k v d) ≡ (if k == j then v else get_or j w d)
get_or-put k j v w d = ground (arith, get-put k j v d)

pub get-del : (k j : String) (d : Fields) → get j (del k d) ≡ (if k == j then none else get j d)
get-del k j end = ground arith
get-del k j (field i w d) = ground (arith, eq_iff k j, eq_iff i k, eq_iff i j, get-del k j d)

pub get-put_self : (k : String) (v : Value) (d : Fields) → get k (put k v d) ≡ some v
get-put_self k v d = simp (get-put, eq_refl)

pub ruleset dict_laws = (get-put, get-del)
