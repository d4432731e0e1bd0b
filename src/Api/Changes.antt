-- ===== src/Api/Changes.antt =====
-- Who may change a repository through the routes of backend/app/main.py, and what is logged of it.
use gitvibe_dev.Prelude.{
  ℕ, ◌≤◌, ◌<◌, String, ◌≡◌, refl, sym, ap, ◌∙◌, false, Option, none, some, [], ◌∷◌, ◌++◌, arith,
  lt→ltb,
}
use gitvibe_dev.Prelude.Int.{ℤ}
use gitvibe_dev.Prelude.Table.{Table}
use gitvibe_dev.Exc.{Exc, Result, ok, raised, http}
use gitvibe_dev.Json.{Fields}
use gitvibe_dev.Tokens.{AuthContext, role_level}
use gitvibe_dev.Providers.{GitProvider, Stores, Call}
use gitvibe_dev.Api.{ensure_role, check_level, level_of, get_git_provider}
use gitvibe_dev.Api.Access.{check_level-ok}
use gitvibe_dev.Api.Repos.{
  World, ◌then_call◌, ask, answer_with, actor_for, owner_for, merge_pull_request, merged_answer,
  add_or_update_collaborator, remove_collaborator, removed_answer,
}

-- A change from `w` to `w'` that the caller of a route was entitled to, and that the audit log
-- records under the caller's name.
pub record IsEntitled {G : Type 0} (required event : String) (context : Option AuthContext)
    (w w' : World G) : Type 0 where
  pub caller : AuthContext
  pub present : context ≡ some caller
  pub held : ℕ
  pub needed : ℕ
  pub role : role_level caller.role ≡ some held
  pub threshold : role_level required ≡ some needed
  pub enough : needed ≤ held
  pub details : Fields
  pub logged :
      w'.audit ≡ w.audit ++ record { event = event; actor = caller.subject; details = details } ∷ []

then_call-ok :
    {W A B : Type 0} (r : Result A) (call : A → Call W B) (w : W) (b : B)
    → ((r then_call call) w).0 ≡ ok b
    → (a : A) × (r ≡ ok a) × ((r then_call call) w ≡ call a w)
then_call-ok (ok a) call w b h = (a, refl, refl)
then_call-ok (raised e) call w b h = cc

then_call-raised :
    {W A B : Type 0} (r : Result A) (e : Exc) (call : A → Call W B) (w : W)
    → r ≡ raised e
    → (r then_call call) w ≡ (raised e, w)
then_call-raised (ok a) e call w h = cc
then_call-raised (raised x) e call w h = cc

answer_with-ok :
    {G A B : Type 0} (finish : A → Call (World G) B) (x : Result A × World G) (b : B)
    → (answer_with finish x).0 ≡ ok b
    → (a : A) × (answer_with finish x ≡ finish a x.1)
answer_with-ok finish (ok a, w) b h = (a, refl)
answer_with-ok finish (raised e, w) b h = cc

actor_for-ok :
    {G : Type 0} (required event : String) (context : Option AuthContext) (actor : String)
    (details : Fields) (w w' : World G)
    → actor_for false required context ≡ ok actor
    → w'.audit ≡ w.audit ++ record { event = event; actor = actor; details = details } ∷ []
    → IsEntitled required event context w w'
unfolding actor_for ensure_role
actor_for-ok required event none actor details w w' h logged = cc
actor_for-ok required event (some c) actor details w w' h logged =
    let (c', e, same) =
      subject_ok (check_level "Insufficient role for this action." required c) h in
    let (held, needed, role, threshold, enough, e') = check_level-ok _ required c c' e in
    record {
      caller = c;
      present = refl;
      held = held;
      needed = needed;
      role = role;
      threshold = threshold;
      enough = enough;
      details = details;
      logged = rw (e', same) logged;
    }
  where
    subject_ok :
        (r : Result AuthContext)
        → elim r as (λ _. Result String) [ raised e ↦ raised e | ok c ↦ ok c.subject ] ≡ ok actor
        → (c : AuthContext) × (r ≡ ok c) × (c.subject ≡ actor)
    subject_ok (raised e) h = cc
    subject_ok (ok c) h = (c, refl, cc)

-- What a route returns only after its last step has logged the change.
abbrev Logs : {G : Type 0} → String → String → (Fields → Call (World G) Fields) → Type 0
Logs {G} event actor finish =
    (a b : Fields) (w : World G)
    → (finish a w).0 ≡ ok b
    → (details : Fields) × ((finish a w).1.audit
        ≡ w.audit ++ record { event = event; actor = actor; details = details } ∷ [])

-- The shape that the routes for changes share.
entitled :
    {G P : Type 0} (required event : String) (context : Option AuthContext) (provider : Result P)
    (owner : Result String)
    → (finish : P → String → Fields → Call (World G) Fields)
    → (call : P → String → String → Call (Stores G) Fields)
    → ((p : P) (actor : String) → Logs event actor (finish p actor))
    → (w : World G) (b : Fields)
    → let out =
        (actor_for false required context then_call λ actor. provider then_call λ p.
        owner then_call λ o w. answer_with (finish p actor) (ask (call p o actor) w))
          w in
      out.0 ≡ ok b → IsEntitled required event context w out.1
entitled required event context provider owner finish call logs w b h =
    let (actor, e, s) = then_call-ok (actor_for false required context) _ w b h in
    let (p, e₁, s₁) = then_call-ok provider _ w b (ap (λ x. x.0) (sym s) ∙ h) in
    let (o, e₂, s₂) = then_call-ok owner _ w b (ap (λ x. x.0) (sym (s ∙ s₁)) ∙ h) in
    let path = s ∙ s₁ ∙ s₂ in
    let (a, s₃) =
      answer_with-ok (finish p actor) (ask (call p o actor) w) b (ap (λ x. x.0) (sym path) ∙ h) in
    let (details, logged) =
      logs p actor a b (ask (call p o actor) w).1 (ap (λ x. x.0) (sym (path ∙ s₃)) ∙ h) in
    actor_for-ok required event context actor details w _ e
      (ap (λ x. x.1.audit) (path ∙ s₃) ∙ logged)

module _ {G : Type 0} (providers : Table (GitProvider (Stores G)))
    (oauth_owner git_provider : Option String) (context : Option AuthContext)
    (owner repo_name : String) (w : World G) (b : Fields) where
  -- Outside of demo mode a merge is answered only to a caller whose role is at least "operator",
  -- and the audit log has one more entry, under the caller's name.
  pub merge_pull_request-IsEntitled :
      (pull_number : ℤ) (merge_method : String) (commit_title : Option String) (now : ℕ)
      → (merge_pull_request false providers oauth_owner git_provider context owner repo_name
          pull_number merge_method commit_title now w).0
        ≡ ok b
      → IsEntitled "operator" "pull_request_merge_requested" context w
          (merge_pull_request false providers oauth_owner git_provider context owner repo_name
            pull_number merge_method commit_title now w).1
  unfolding merge_pull_request merged_answer
  merge_pull_request-IsEntitled pull_number merge_method commit_title now =
      entitled "operator" "pull_request_merge_requested" context
        (get_git_provider false providers git_provider) (owner_for false oauth_owner context)
        (λ p actor.
          merged_answer false providers oauth_owner git_provider context owner repo_name p.name
            pull_number actor)
        (λ p o actor.
          p.merge_pull_request owner repo_name pull_number o merge_method commit_title actor now)
        (λ p actor a b w h. (_, refl)) w b

  -- Outside of demo mode a collaborator's invitation or change is answered only to a caller whose
  -- role is at least "admin", and the audit log has one more entry, under the caller's name.
  pub add_or_update_collaborator-IsEntitled :
      (username permission : String)
      → (add_or_update_collaborator false providers oauth_owner git_provider context owner repo_name
          username permission w).0
        ≡ ok b
      → IsEntitled "admin" "collaborator_upserted" context w
          (add_or_update_collaborator false providers oauth_owner git_provider context owner
            repo_name username permission w).1
  unfolding add_or_update_collaborator
  add_or_update_collaborator-IsEntitled username permission =
      entitled "admin" "collaborator_upserted" context
        (get_git_provider false providers git_provider) (owner_for false oauth_owner context) _
        (λ p o actor. p.add_collaborator owner repo_name username o permission)
        (λ p actor a b w h. (_, refl)) w b

  -- Outside of demo mode a collaborator's removal is answered only to a caller whose role is at
  -- least "admin", and the audit log has one more entry, under the caller's name.
  pub remove_collaborator-IsEntitled :
      (username : String)
      → (remove_collaborator false providers oauth_owner git_provider context owner repo_name
          username w).0
        ≡ ok b
      → IsEntitled "admin" "collaborator_removed" context w
          (remove_collaborator false providers oauth_owner git_provider context owner repo_name
            username w).1
  unfolding remove_collaborator removed_answer
  remove_collaborator-IsEntitled username =
      entitled "admin" "collaborator_removed" context
        (get_git_provider false providers git_provider) (owner_for false oauth_owner context)
        (λ p actor.
          removed_answer false providers oauth_owner git_provider context owner repo_name p.name
            username actor)
        (λ p o actor. p.remove_collaborator owner repo_name username o)
        (λ p actor a b w h. (_, refl)) w b

actor_for-refused :
    (required : String) (c : AuthContext) (held needed : ℕ)
    → role_level c.role ≡ some held
    → role_level required ≡ some needed
    → held < needed
    → actor_for false required (some c) ≡ raised (http 403 "Insufficient role for this action.")
unfolding actor_for ensure_role check_level level_of
actor_for-refused required c held needed e e' less = rw (e, e', lt→ltb held needed less, actor_for)

module _ {G : Type 0} (providers : Table (GitProvider (Stores G)))
    (oauth_owner git_provider : Option String) (c : AuthContext) (owner repo_name : String)
    (w : World G) where
  -- Outside of demo mode a caller below "operator" can neither merge nor change collaborators: the
  -- three routes raise 403, and providers and audit log are left alone.
  pub changes_refused :
      (held : ℕ) (pull_number : ℤ) (merge_method : String) (commit_title : Option String) (now : ℕ)
      (username permission : String)
      → role_level c.role ≡ some held
      → held < 20
      → let refused : Result Fields × World G =
          (raised (http 403 "Insufficient role for this action."), w) in
        (merge_pull_request false providers oauth_owner git_provider
            (some c)
            owner
            repo_name
            pull_number
            merge_method
            commit_title
            now
            w
          ≡ refused)
        × (add_or_update_collaborator false providers oauth_owner git_provider
              (some c)
              owner
              repo_name
              username
              permission
              w
            ≡ refused)
        × (remove_collaborator false providers oauth_owner git_provider
              (some c)
              owner
              repo_name
              username
              w
            ≡ refused)
  unfolding merge_pull_request add_or_update_collaborator remove_collaborator role_level
  changes_refused held pull_number merge_method commit_title now username permission role less = (
    then_call-raised _ _ _ w (actor_for-refused "operator" c held 20 role refl less),
    then_call-raised _ _ _ w (actor_for-refused "admin" c held 30 role refl (omega (arith, less))),
    then_call-raised _ _ _ w (actor_for-refused "admin" c held 30 role refl (omega (arith, less))),
  )
