-- ===== src/Demo.antt =====
-- DemoDataService of backend/app/demo_service.py: the repositories that demo mode shows.
pub mod Seed
pub mod Merge
pub mod Collaborators
pub mod Tests
use gitvibe_dev.Prelude.{
  ℕ, ◌/◌, ◌+◌, String, Bool, true, false, not, Option, none, some, List, [], ◌∷◌, ◌++◌, length,
  select, ◌==◌, nat_eq, if◌then◌else◌,
}
use gitvibe_dev.Prelude.Table.{Table, at, set_at, rows}
use gitvibe_dev.Prelude.Int.{ℤ, pos, negsuc, equals}
use gitvibe_dev.Exc.{Result, ok, raised, ◌>>=◌}
use gitvibe_dev.Json.{Value, bool, int, str, Fields, end, field}
use gitvibe_dev.Json.Dict.{get, get_or, put}
use gitvibe_dev.Json.Convert.{Builtins, int_of, str_of, is_text, concat}

pub record DemoData : Type 0 where
  pub repos : List Fields
  pub pulls_by_repo : Table (List Fields)
  pub issues_by_repo : Table (List Fields)
  pub collaborators_by_repo : Table (List Fields)
  pub pull_diffs_by_repo : Table (List (ℤ × String))

abbrev pub no_data : DemoData
no_data = record {
  repos = [];
  pulls_by_repo = [];
  issues_by_repo = [];
  collaborators_by_repo = [];
  pull_diffs_by_repo = [];
}

abbrev pub list_repositories : DemoData → List Fields
list_repositories s = s.repos

abbrev pub list_pull_requests : String → DemoData → List Fields
list_pull_requests repo_name s = rows repo_name s.pulls_by_repo

abbrev pub list_issues : String → DemoData → List Fields
list_issues repo_name s = rows repo_name s.issues_by_repo

abbrev pub list_collaborators : String → DemoData → List Fields
list_collaborators repo_name s = rows repo_name s.collaborators_by_repo

-- `int(pull.get("number", -1))`
abbrev pub number_of : Fields → Result ℤ
number_of pull = int_of (get_or "number" (int (negsuc 0)) pull)

abbrev pub merge_answer : Bool → String → Fields
merge_answer merged message = field "merged" (bool merged) (field "message" (str message) end)

abbrev pub already_merged : Fields
already_merged = merge_answer true "Pull request already merged."

-- The body of the loop for the pull that has the number.
abbrev pub merge_found : String → ℕ → Fields → Fields × Fields
merge_found merged_by now pull =
    if is_text "merged" (get "status" pull) then (already_merged, pull) else (
      merge_answer true "Pull request merged in demo mode.",
      put "merged_at" (int (pos (now / 1_000_000)))
          (put "merged_by" (str merged_by) (put "status" (str "merged") pull)),
    )

-- The loop of `merge_pull_request`; the dicts of the list are changed in place.
unfoldable pub merge_in : ℤ → String → ℕ → List Fields → Result Fields × List Fields
merge_in pull_number merged_by now [] = (ok (merge_answer false "Pull request not found."), [])
merge_in pull_number merged_by now (pull ∷ pulls) =
    let (answer, rest) = merge_in pull_number merged_by now pulls in
    elim (number_of pull) [
      | raised e ↦ (raised e, pull ∷ pulls)
      | ok n ↦
          if equals n pull_number
          then (let (found, pull') = merge_found merged_by now pull in (ok found, pull' ∷ pulls))
          else (answer, pull ∷ rest)
    ]

-- A list that is there is put back; with none there is nothing to change.
abbrev pub put_back : {A : Type 0} → String → A → Table A → Table A
put_back name a table = elim (at name table) [ none ↦ table | some b ↦ set_at name a table ]

unfoldable pub merge_pull_request : String → ℤ → String → ℕ → DemoData → Result Fields × DemoData
unfolding merge_in
merge_pull_request repo_name pull_number merged_by now s =
    let (answer, pulls) = merge_in pull_number merged_by now (rows repo_name s.pulls_by_repo) in
    (answer, record s { pulls_by_repo = put_back repo_name pulls s.pulls_by_repo })

abbrev pub has_login : String → Fields → Bool
has_login username collaborator = is_text username (get "login" collaborator)

abbrev pub change_answer : String → String → String → Fields
change_answer status username permission =
    field "status" (str status)
      (field "username" (str username) (field "permission" (str permission) end))

-- The loop of `upsert_collaborator` and the append after it.
unfoldable pub upsert_in : String → String → List Fields → Fields × List Fields
upsert_in username permission [] = (
  change_answer "invited" username permission,
  field "login" (str username) (field "permission" (str permission) end) ∷ [],
)
upsert_in username permission (c ∷ cs) =
    let (answer, rest) = upsert_in username permission cs in
    if has_login username c
    then (change_answer "updated" username permission, put "permission" (str permission) c ∷ cs)
    else (answer, c ∷ rest)

unfoldable pub upsert_collaborator : String → String → String → DemoData → Fields × DemoData
unfolding upsert_in
upsert_collaborator repo_name username permission s =
    let (answer, cs) = upsert_in username permission (rows repo_name s.collaborators_by_repo) in
    (answer, record s { collaborators_by_repo = set_at repo_name cs s.collaborators_by_repo })

abbrev pub removal_answer : String → String → Fields
removal_answer status username = field "status" (str status) (field "username" (str username) end)

unfoldable pub remove_collaborator : String → String → DemoData → Fields × DemoData
remove_collaborator repo_name username s =
    let collaborators = rows repo_name s.collaborators_by_repo in
    let kept = select (λ item. not (has_login username item)) collaborators in
    (
      removal_answer
          (if nat_eq (length kept) (length collaborators) then "not_found" else "removed") username,
      record s { collaborators_by_repo = set_at repo_name kept s.collaborators_by_repo },
    )

-- `next(...)` over the pulls with the number
unfoldable pub select_pull : ℤ → List Fields → Result (Option Fields)
select_pull pull_number [] = ok none
select_pull pull_number (pull ∷ pulls) =
    let rest = select_pull pull_number pulls in
    elim (number_of pull) [
      | raised e ↦ raised e
      | ok n ↦ if equals n pull_number then ok (some pull) else rest
    ]

-- `diffs.get(pull_number, "")`
abbrev pub diff_of : ℤ → List (ℤ × String) → String
diff_of pull_number [] = ""
diff_of pull_number ((n, diff) ∷ diffs) =
    let rest = diff_of pull_number diffs in if equals n pull_number then diff else rest

-- `py.repr` writes the number in the link.
unfoldable pub review_context_of : Builtins → String → ℤ → DemoData → Fields → Fields
review_context_of py repo_name pull_number s pull =
    field "owner" (get_or "owner" (str "demo-org") pull) (
      field "repo" (str repo_name) (
        field "pull_number" (int pull_number) (
          field "title" (get_or "title" (str "") pull) (
            field "body" (str "Demo pull request generated by DemoDataService.") (
              field "html_url"
                (str (
                  concat (
                    "https://example.local/"
                    ∷ repo_name
                    ∷ "/pull/"
                    ∷ str_of py (int pull_number)
                    ∷ [])))
                (field "diff" (str (diff_of pull_number (rows repo_name s.pull_diffs_by_repo)))
                  end))))))

unfoldable pub pull_review_context : Builtins → String → ℤ → DemoData → Result Fields
unfolding select_pull review_context_of
pull_review_context py repo_name pull_number s =
    select_pull pull_number (rows repo_name s.pulls_by_repo) >>= λ selected_pull.
    ok (elim selected_pull [
      | none ↦ end
      | some pull ↦ review_context_of py repo_name pull_number s pull
    ])
