-- ===== src/Github/Issues.antt =====
-- What the listing of issues in backend/app/github_service.py makes of GitHub's answer, in which
-- pull requests stand among the issues.
use gitvibe_dev.Prelude.{
  ℕ, ◌<◌, arith, leb, String, ◌≡◌, refl, sym, ap, subst, ◌∙◌, false, Bool-cases, Option, none, some,
  List, [], ◌∷◌, All, All-weaken, inl, inr, Option-cases,
}
use gitvibe_dev.Exc.{Result, ok, raised, ◌>>=◌, bind_ok, Result-cases, passed_test}
use gitvibe_dev.Json.{
  Value, null, bool, float, arr, obj, Items, nil, cons, Fields, str, int, field, end,
}
use gitvibe_dev.Json.Dict.{get_or, has}
use gitvibe_dev.Github.{GithubConfig, HttpResponse, Outside, GithubService, continue, ◌then_do◌}
use gitvibe_dev.Providers.{Call}
use gitvibe_dev.Json.Convert.{concat}
use gitvibe_dev.Prelude.Int.{pos}
use gitvibe_dev.Github.Requests.{
  get_access_token, github_api_request, github_api_json, api_call, send, check_status, json_of,
}
use gitvibe_dev.Github.Calls.{
  each_dict, issue, issue_dict, label_names, list_of, list_issues, listing,
}

pub data IsItem (item : Fields) : Items → Type 0 where
  first : {vs : Items} → IsItem item (cons (obj item) vs)
  later : {v : Value} → {vs : Items} → IsItem item vs → IsItem item (cons v vs)

-- An entry of the listing that comes from an item of the answer that is no pull request
pub record IsIssueOf (vs : Items) (entry : Fields) : Type 0 where
  item : Fields
  among : IsItem item vs
  no_pull_request : has "pull_request" item ≡ false
  labels : Items
  labelled : label_names (get_or "labels" (arr nil) item) ≡ ok labels
  listed : entry ≡ issue_dict item labels

further :
    {v : Value} {vs : Items} (entry : Fields) → IsIssueOf vs entry → IsIssueOf (cons v vs) entry
further entry x = record {
  item = x.item;
  among = later x.among;
  no_pull_request = x.no_pull_request;
  labels = x.labels;
  labelled = x.labelled;
  listed = x.listed;
}

ok_inj : {A : Type 0} {a b : A} → ok a ≡ ok b → a ≡ b
ok_inj h = cc

some_inj : {A : Type 0} {a b : A} → some a ≡ some b → a ≡ b
some_inj h = cc

issue-some :
    (item : Fields) (vs : Items) (entry : Fields)
    → issue item ≡ ok (some entry)
    → IsIssueOf (cons (obj item) vs) entry
unfolding issue
issue-some item vs entry h = elim (Bool-cases (has "pull_request" item)) [
  | inl pull ↦ absurd (cc (rw (pull, issue) at h))
  | inr no_pull ↦
      let (labels, labelled, made) =
        bind_ok (label_names (get_or "labels" (arr nil) item)) _ (rw (no_pull, issue) at h) in
      record {
        item = item;
        among = first;
        no_pull_request = no_pull;
        labels = labels;
        labelled = labelled;
        listed = sym (some_inj (ok_inj made));
      }
]

with_entry :
    (item : Fields) (vs : Items) (made : Option Fields) (rest : List Fields)
    → issue item ≡ ok made
    → All (IsIssueOf vs) rest
    → All (IsIssueOf (cons (obj item) vs)) (elim made [ none ↦ rest | some x ↦ x ∷ rest ])
with_entry item vs none rest h all = All-weaken rest further all
with_entry item vs (some x) rest h all = (issue-some item vs x h, All-weaken rest further all)

each_dict-issue :
    (vs : Items) (entries : List Fields)
    → each_dict issue vs ≡ ok entries
    → All (IsIssueOf vs) entries
unfolding each_dict
each_dict-issue nil entries h = subst (All (IsIssueOf nil)) (ok_inj h) tt
each_dict-issue (cons (obj item) vs) entries h =
    let (made, h₁, h₂) = bind_ok (issue item) _ h in
    let (rest, h₃, h₄) = bind_ok (each_dict issue vs) _ h₂ in
    subst (All (IsIssueOf (cons (obj item) vs))) (ok_inj h₄)
      (with_entry item vs made rest h₁ (each_dict-issue vs rest h₃))
each_dict-issue (cons null vs) entries h = All-weaken entries further (each_dict-issue vs entries h)
each_dict-issue (cons (str s) vs) entries h =
    All-weaken entries further (each_dict-issue vs entries h)
each_dict-issue (cons (int n) vs) entries h =
    All-weaken entries further (each_dict-issue vs entries h)
each_dict-issue (cons (arr xs) vs) entries h =
    All-weaken entries further (each_dict-issue vs entries h)
each_dict-issue (cons (bool b) vs) entries h =
    All-weaken entries further (each_dict-issue vs entries h)
each_dict-issue (cons (float n) vs) entries h =
    All-weaken entries further (each_dict-issue vs entries h)

list_of-ok : (what : String) (v : Value) (vs : Items) → list_of what v ≡ ok vs → v ≡ arr vs
list_of-ok what (arr xs) vs h = cc
list_of-ok what null vs h = cc
list_of-ok what (obj d) vs h = cc
list_of-ok what (str s) vs h = cc
list_of-ok what (int n) vs h = cc
list_of-ok what (bool b) vs h = cc
list_of-ok what (float n) vs h = cc

json_of-ok :
    (response : HttpResponse) (v : Value) → json_of response ≡ ok v → response.json ≡ some v
json_of-ok response v h = elim (Option-cases response.json) [
  | inl missing ↦ absurd (cc (rw (missing, json_of) at h))
  | inr (w, there) ↦ there ∙ ap some (ok_inj (rw (there, json_of) at h))
]

continue-ok :
    {W A B : Type 0} (next : A → Call W B) (r : Result A × W) (b : B)
    → (continue next r).0 ≡ ok b
    → (a : A) × (r.0 ≡ ok a) × ((next a r.1).0 ≡ ok b)
continue-ok next (ok a, w) b h = (a, refl, h)
continue-ok next (raised e, w) b h = absurd cc

then_do-ok :
    {W A B : Type 0} (call : Call W A) (next : A → Call W B) (w : W) (b : B)
    → ((call then_do next) w).0 ≡ ok b
    → (a : A) × ((call w).0 ≡ ok a) × ((next a (call w).1).0 ≡ ok b)
then_do-ok call next w b h = continue-ok next (call w) b h

below_400 : (n : ℕ) → leb 400 n ≡ false → n < 400
below_400 n h = ground arith

module _ {Key Text Bytes : Type 0} (config : GithubConfig) (out : Outside Key Text Bytes) where
  -- GitHub answered a call with the payload `v`.
  pub record IsAnswered (method path : String) (params json_body : Option Fields)
      (oauth_owner : String) (s : GithubService Key Bytes) (v : Value) : Type 0 where
    access_token : String
    kept : get_access_token config out oauth_owner s ≡ ok access_token
    response : HttpResponse
    answered :
        out.net s.sent (
          api_call config out method path params json_body "application/vnd.github+json"
            access_token)
        ≡ ok response
    accepted : response.status_code < 400
    payload : response.json ≡ some v

  github_api_json-IsAnswered :
      (method path : String) (params json_body : Option Fields) (oauth_owner : String)
      (s : GithubService Key Bytes) (v : Value)
      → (github_api_json config out method path params json_body oauth_owner s).0 ≡ ok v
      → IsAnswered method path params json_body oauth_owner s v
  unfolding github_api_json github_api_request send check_status
  github_api_json-IsAnswered method path params json_body oauth_owner s v h =
      elim (Result-cases (get_access_token config out oauth_owner s)) [
        | inr (e, missing) ↦ absurd (cc (rw (missing, github_api_request) at h))
        | inl (access_token, found) ↦
            let request =
              api_call config out method path params json_body "application/vnd.github+json"
                access_token in
            let (checked, h₁, h₂) =
              bind_ok (out.net s.sent request >>= check_status config out) json_of
                (rw (found, github_api_request) at h) in
            let (response, h₃, h₄) =
              bind_ok (out.net s.sent request) (check_status config out) h₁ in
            let (accepted, same) =
              passed_test (leb 400 response.status_code) _ response checked h₄ in
            record {
              access_token = access_token;
              kept = found;
              response = response;
              answered = h₃;
              accepted = below_400 response.status_code accepted;
              payload = json_of-ok response v (subst (λ x. json_of x ≡ ok v) (sym same) h₂);
            }
      ]

  -- Every entry of the listing of issues comes from an item of GitHub's answer, which had a status
  -- below 400, that is no pull request.
  pub list_issues-All :
      (owner repo oauth_owner : String) (limit : ℕ) (state_filter : String)
      (s : GithubService Key Bytes) (entries : List Fields)
      → (list_issues config out owner repo oauth_owner limit state_filter s).0 ≡ ok entries
      → (vs : Items) × IsAnswered "GET"
          (concat ("/repos/" ∷ owner ∷ "/" ∷ repo ∷ "/issues" ∷ []))
          (some (field "state" (str state_filter) (field "per_page" (int (pos limit)) end)))
          none
          oauth_owner
          s
          (arr vs)
        × All (IsIssueOf vs) entries
  unfolding list_issues listing
  list_issues-All owner repo oauth_owner limit state_filter s entries h =
      let (payload, h₁, h₂) =
        then_do-ok (github_api_json config out _ _ _ _ oauth_owner) _ s entries h in
      let (vs, h₃, h₄) = bind_ok (list_of "issue" payload) (each_dict issue) h₂ in
      (
        vs,
        github_api_json-IsAnswered _ _ _ _ oauth_owner s (arr vs)
            (h₁ ∙ ap ok (list_of-ok "issue" payload vs h₃)),
        each_dict-issue vs entries h₄,
      )
