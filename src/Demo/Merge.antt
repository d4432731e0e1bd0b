-- ===== src/Demo/Merge.antt =====
-- Merging a pull request in demo mode, backend/app/demo_service.py.
use gitvibe_dev.Prelude.{
  ℕ, String, ◌≡◌, subst, inl, inr, true, false, none, some, Option-cases, Bool-cases, List, [], ◌∷◌,
  eq_refl, ◌==◌,
}
use gitvibe_dev.Prelude.Int.{ℤ, equals}
use gitvibe_dev.Exc.{ok, Result-cases}
use gitvibe_dev.Json.{Value, bool, Fields}
use gitvibe_dev.Json.Dict.{get, put, get-put, get-put_self, get_or-put}
use gitvibe_dev.Json.Convert.{is_text}
use gitvibe_dev.Prelude.Table.{Table, at, set_at, rows, at-set_at, set_at_twice, rows-set_at}
use gitvibe_dev.Demo.{
  DemoData, put_back, number_of, already_merged, merge_found, merge_in, merge_pull_request,
}

number_of-put :
    (k : String) (v : Value) (pull : Fields)
    → (k == "number") ≡ false
    → number_of (put k v pull) ≡ number_of pull
number_of-put k v pull h = rw (get_or-put, h)

merge_found-number_of :
    (by : String) (now : ℕ) (pull : Fields) → number_of (merge_found by now pull).1 ≡ number_of pull
merge_found-number_of by now pull = elim (Bool-cases (is_text "merged" (get "status" pull))) [
  | inl done ↦ rw done
  | inr fresh ↦ rw (fresh, get_or-put, get_or-put, get_or-put)
]

merge_found_twice :
    (by by' : String) (now later : ℕ) (pull : Fields)
    → merge_found by' later (merge_found by now pull).1
      ≡ (already_merged, (merge_found by now pull).1)
merge_found_twice by by' now later pull = elim (Bool-cases (is_text "merged" (get "status" pull))) [
  | inl done ↦ rw (done, done)
  | inr fresh ↦ rw fresh (rw (get-put, get-put, get-put_self))
]

-- A loop that found the pull finds it merged when it runs again.
merge_in_twice :
    (n : ℤ) (by by' : String) (now later : ℕ) (pulls : List Fields) (a : Fields)
    → (merge_in n by now pulls).0 ≡ ok a
    → get "merged" a ≡ some (bool true)
    → merge_in n by' later (merge_in n by now pulls).1
      ≡ (ok already_merged, (merge_in n by now pulls).1)
unfolding merge_in
merge_in_twice n by by' now later [] a = λ h m. cc
merge_in_twice n by by' now later (pull ∷ pulls) a = elim (Result-cases (number_of pull)) [
  | inr (e, bad) ↦ rw (bad, merge_in) (λ h m. cc)
  | inl (k, good) ↦ elim (Bool-cases (equals k n)) [
    | inl same ↦
        rw (good, same, merge_in)
          (λ h m. rw (
            merge_found-number_of by now pull,
            good,
            same,
            merge_found_twice by by' now later pull,
          ))
    | inr differs ↦
        rw (good, differs, merge_in)
          (λ h m. rw (good, differs, merge_in, merge_in_twice n by by' now later pulls a h m))
  ]
]

rows-some :
    {A : Type 0} (name : String) (xs : List A) (t : Table (List A))
    → at name t ≡ some xs
    → rows name t ≡ xs
rows-some name xs t h = rw (h, rows)

rows-none : {A : Type 0} (name : String) (t : Table (List A)) → at name t ≡ none → rows name t ≡ []
rows-none name t h = rw (h, rows)

put_back-some :
    {A : Type 0} (name : String) (a b : A) (t : Table A)
    → at name t ≡ some b
    → put_back name a t ≡ set_at name a t
put_back-some name a b t h = rw (h, put_back)

put_back_twice :
    {A : Type 0} (name : String) (a b : A) (t : Table A)
    → at name t ≡ some b
    → put_back name a (put_back name a t) ≡ put_back name a t
put_back_twice name a b t h =
    let at_last : at name (set_at name a t) ≡ some a = rw (at-set_at, eq_refl) in
    rw (put_back-some name a b t h, put_back-some name a a (set_at name a t) at_last, set_at_twice)

-- The table after a merge that found the pull.
merge_rows_twice :
    (name : String) (n : ℤ) (by by' : String) (now later : ℕ) (t : Table (List Fields)) (a : Fields)
    → (merge_in n by now (rows name t)).0 ≡ ok a
    → get "merged" a ≡ some (bool true)
    → let pulls = (merge_in n by now (rows name t)).1 in
      (merge_in n by' later (rows name (put_back name pulls t)) ≡ (ok already_merged, pulls))
      × (put_back name pulls (put_back name pulls t) ≡ put_back name pulls t)
unfolding merge_in
merge_rows_twice name n by by' now later t a h m = elim (Option-cases (at name t)) [
  | inl missing ↦
      let none_found = subst (λ ps. (merge_in n by now ps).0 ≡ ok a) (rows-none name t missing) h in
      absurd cc
  | inr (pulls, there) ↦
      let new = (merge_in n by now (rows name t)).1 in
      (
        rw (put_back-some name new pulls t there, rows-set_at, eq_refl)
            (merge_in_twice n by by' now later (rows name t) a h m),
        put_back_twice name new pulls t there,
      )
]

-- A pull request that demo mode merged, or found merged, is answered as already merged when it is
-- merged again, by whoever and at any time, and nothing changes.
pub merge_pull_request_twice :
    (repo_name : String) (n : ℤ) (by by' : String) (now later : ℕ) (s : DemoData) (a : Fields)
    → (merge_pull_request repo_name n by now s).0 ≡ ok a
    → get "merged" a ≡ some (bool true)
    → merge_pull_request repo_name n by' later (merge_pull_request repo_name n by now s).1
      ≡ (ok already_merged, (merge_pull_request repo_name n by now s).1)
unfolding merge_pull_request
merge_pull_request_twice repo_name n by by' now later s a h m =
    let (again, same) = merge_rows_twice repo_name n by by' now later s.pulls_by_repo a h m in
    rw (merge_pull_request, again, same)
