-- ===== src/Demo/Collaborators.antt =====
-- Who may do what in a repository of demo mode, backend/app/demo_service.py.
use gitvibe_dev.Prelude.{
  String, ◌≡◌, refl, subst, inl, inr, true, false, not, ◌&&◌, Option, none, some, Bool-cases, List,
  [], ◌∷◌, arith, eq_iff, eq_refl, if◌then◌else◌, ◌==◌, select, String-cases,
}
use gitvibe_dev.Json.{Value, null, bool, int, float, str, arr, obj, Fields}
use gitvibe_dev.Json.Dict.{get, put, get-put, get-put_self}
use gitvibe_dev.Json.Convert.{is_text}
use gitvibe_dev.Prelude.Table.{rows-set_at}
use gitvibe_dev.Demo.{
  DemoData, list_collaborators, has_login, upsert_in, upsert_collaborator, remove_collaborator,
}

-- The permission that the first entry of a user gives.
unfoldable permission_in : String → List Fields → Option Value
permission_in username [] = none
permission_in username (c ∷ cs) =
    if has_login username c then get "permission" c else permission_in username cs

-- A repository's collaborators seen as a map from users to permissions.
unfoldable pub permission_of : String → String → DemoData → Option Value
unfolding permission_in
permission_of repo_name username s = permission_in username (list_collaborators repo_name s)

has_login_unique : (u w : String) (v : Option Value) → is_text u v ≡ true → is_text w v ≡ (u == w)
has_login_unique u w (some (str s)) h = ground (arith, eq_iff s u, eq_iff s w, eq_iff u w)
has_login_unique u w (some null) h = cc
has_login_unique u w (some (bool b)) h = cc
has_login_unique u w (some (int n)) h = cc
has_login_unique u w (some (float t)) h = cc
has_login_unique u w (some (arr vs)) h = cc
has_login_unique u w (some (obj d)) h = cc
has_login_unique u w none h = cc

has_login-put :
    (u : String) (v : Value) (c : Fields) → has_login u (put "permission" v c) ≡ has_login u c
has_login-put u v c = rw get-put

other_entry :
    (w u : String) (c : Fields) (x y z : Option Value)
    → has_login w c ≡ false
    → (if has_login u c then x else if w == u then z else y)
      ≡ (if w == u then z else if has_login u c then x else y)
other_entry w u c x y z h = elim (String-cases w u) [
  | inl e ↦ rw (e, eq_refl, subst (λ v. has_login v c ≡ false) e h)
  | inr ne ↦ rw ne
]

permission_in-upsert_in :
    (username permission u : String) (cs : List Fields)
    → permission_in u (upsert_in username permission cs).1
      ≡ (if username == u then some (str permission) else permission_in u cs)
unfolding permission_in upsert_in
permission_in-upsert_in username permission u [] = refl
permission_in-upsert_in username permission u (c ∷ cs) = elim (Bool-cases (has_login username c)) [
  | inl same ↦
      rw (same, has_login-put, get-put_self, has_login_unique username u (get "login" c) same)
        (ground arith)
  | inr differs ↦
      rw (differs, permission_in-upsert_in username permission u cs)
        (other_entry username u c (get "permission" c) (permission_in u cs) (some (str permission))
          differs)
]

permission_in-select :
    (username u : String) (cs : List Fields)
    → permission_in u (select (λ item. not (has_login username item)) cs)
      ≡ (if username == u then none else permission_in u cs)
unfolding permission_in
permission_in-select username u [] = ground arith
permission_in-select username u (c ∷ cs) = elim (Bool-cases (has_login username c)) [
  | inl same ↦
      rw
        (same, has_login_unique username u (get "login" c) same, permission_in-select username u cs)
        (ground arith)
  | inr differs ↦
      rw (differs, permission_in-select username u cs)
        (other_entry username u c (get "permission" c) (permission_in u cs) none differs)
]

-- Inviting or changing a collaborator sets the permission of that user in that repository, and of
-- no other user or repository.
pub permission_of-upsert_collaborator :
    (repo_name other username u permission : String) (s : DemoData)
    → permission_of other u (upsert_collaborator repo_name username permission s).1 ≡ (
        if repo_name == other && username == u
        then some (str permission)
        else permission_of other u s)
unfolding permission_of upsert_collaborator
permission_of-upsert_collaborator repo_name other username u permission s =
    elim (String-cases repo_name other) [
      | inl e ↦ rw (
        rows-set_at,
        e,
        eq_refl,
        permission_in-upsert_in username permission u (list_collaborators other s),
      )
      | inr ne ↦ rw (rows-set_at, ne)
    ]

-- Removing a collaborator takes the permission of that user in that repository away, and no other
-- permission.
pub permission_of-remove_collaborator :
    (repo_name other username u : String) (s : DemoData)
    → permission_of other u (remove_collaborator repo_name username s).1
      ≡ (if repo_name == other && username == u then none else permission_of other u s)
unfolding permission_of remove_collaborator
permission_of-remove_collaborator repo_name other username u s =
    elim (String-cases repo_name other) [
      | inl e ↦
          rw (rows-set_at, e, eq_refl, permission_in-select username u (list_collaborators other s))
      | inr ne ↦ rw (rows-set_at, ne)
    ]
