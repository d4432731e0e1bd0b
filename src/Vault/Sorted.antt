-- ===== src/Vault/Sorted.antt =====
-- What a dict of JSON values comes back as from `json.dumps(..., sort_keys=True)` and `json.loads`
-- in backend/app/vault.py: the same dict, its keys in order at every depth.
use Prim.Native.Nat.{Ordering}
use Prim.Native.String.{compare}
use gitvibe_dev.Prelude.{String, ◌≡◌, refl, Option, none, some, arith, ◌==◌, eq_iff, if◌then◌else◌}
use gitvibe_dev.Json.{
  Value, null, bool, int, float, str, arr, obj, Items, nil, cons, Fields, end, field,
}
use gitvibe_dev.Json.Dict.{get}

abbrev insert : String → Value → Fields → Fields
insert k v end = field k v end
insert k v (field j w d) =
    let rest = insert k v d in
    elim (compare k j) [
      | Ordering.lt ↦ field k v (field j w d)
      | Ordering.eq ↦ field k v d
      | Ordering.gt ↦ field j w rest
    ]

unfoldable mutual
  pub sorted_value : Value → Value
  sorted_value (obj d) = obj (sorted_fields d)
  sorted_value (arr vs) = arr (sorted_items vs)
  sorted_value null = null
  sorted_value (bool b) = bool b
  sorted_value (int n) = int n
  sorted_value (float t) = float t
  sorted_value (str s) = str s

  pub sorted_fields : Fields → Fields
  sorted_fields end = end
  sorted_fields (field k v d) = insert k (sorted_value v) (sorted_fields d)

  pub sorted_items : Items → Items
  sorted_items nil = nil
  sorted_items (cons v vs) = cons (sorted_value v) (sorted_items vs)

get-insert :
    (k j : String) (v : Value) (d : Fields)
    → get j (insert k v d) ≡ (if k == j then some v else get j d)
get-insert k j v end = refl
get-insert k j v (field i w d) =
    ground (arith, eq_iff k j, eq_iff i k, eq_iff i j, eq_iff k i, get-insert k j v d)

abbrev pub sorted_entry : Option Value → Option Value
sorted_entry none = none
sorted_entry (some v) = some (sorted_value v)

-- Sorting the keys changes no entry, but for the order inside of it.
pub get-sorted_fields : (j : String) (d : Fields) → get j (sorted_fields d) ≡ sorted_entry (get j d)
unfolding sorted_fields
get-sorted_fields j end = refl
get-sorted_fields j (field k v d) =
    ground (arith, get-insert k j (sorted_value v) (sorted_fields d), get-sorted_fields j d)
