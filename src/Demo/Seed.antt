-- ===== src/Demo/Seed.antt =====
-- `seed` of backend/app/demo_service.py: the repositories, pulls, issues and collaborators of demo mode.
use gitvibe_dev.Prelude.{String, List, [], ◌∷◌}
use gitvibe_dev.Prelude.Int.{ℤ, pos}
use gitvibe_dev.Json.{int, str, arr, Fields, end, field, of_strings}
use gitvibe_dev.Prelude.Table.{Table}
use gitvibe_dev.Demo.{DemoData}

abbrev repos : List Fields
repos =
    ((field "id" (int (pos 101)) (
        field "name" (str "platform-api") (
          field "owner" (str "demo-org")
            (field "default_branch" (str "main") (field "open_prs" (int (pos 2)) end)))))
      ∷ (field "id" (int (pos 102)) (
          field "name" (str "platform-web") (
            field "owner" (str "demo-org")
              (field "default_branch" (str "main") (field "open_prs" (int (pos 1)) end)))))
      ∷ [])

abbrev pulls : Table (List Fields)
pulls =
    ((
      "platform-api",
      ((field "number" (int (pos 42)) (
            field "title" (str "feat: add AI repo insights endpoint") (
              field "author" (str "copilot-bot")
                (field "status" (str "open") (field "checks" (str "passing") end)))))
          ∷ (field "number" (int (pos 44)) (
              field "title" (str "fix: tighten webhook signature validation") (
                field "author" (str "security-maintainer")
                  (field "status" (str "open") (field "checks" (str "pending") end)))))
          ∷ []),
    )
      ∷ (
        "platform-web",
        ((field "number" (int (pos 13)) (
              field "title" (str "chore: improve dashboard loading states") (
                field "author" (str "frontend-dev")
                  (field "status" (str "open") (field "checks" (str "passing") end)))))
            ∷ []),
      )
      ∷ [])

abbrev issues : Table (List Fields)
issues =
    ((
      "platform-api",
      ((field "number" (int (pos 8)) (
            field "title" (str "api: harden OAuth callback validation") (
              field "author" (str "security-maintainer") (
                field "status" (str "open")
                  (field "labels" (arr (of_strings ("security" ∷ []))) end)))))
          ∷ (field "number" (int (pos 9)) (
              field "title" (str "api: add queue retries for review jobs") (
                field "author" (str "backend-dev") (
                  field "status" (str "open")
                    (field "labels" (arr (of_strings ("backend" ∷ []))) end)))))
          ∷ []),
    )
      ∷ (
        "platform-web",
        ((field "number" (int (pos 3)) (
              field "title" (str "web: improve merge action feedback") (
                field "author" (str "frontend-dev") (
                  field "status" (str "open")
                    (field "labels" (arr (of_strings ("ux" ∷ []))) end)))))
            ∷ []),
      )
      ∷ [])

abbrev collaborators : Table (List Fields)
collaborators =
    ((
      "platform-api",
      ((field "login" (str "maintainer") (field "permission" (str "admin") end))
          ∷ (field "login" (str "backend-dev") (field "permission" (str "push") end))
          ∷ []),
    )
      ∷ (
        "platform-web",
        ((field "login" (str "maintainer") (field "permission" (str "admin") end))
            ∷ (field "login" (str "frontend-dev") (field "permission" (str "push") end))
            ∷ []),
      )
      ∷ [])

abbrev diffs : Table (List (ℤ × String))
diffs =
    ((
      "platform-api",
      ((
        pos 42,
        "diff --git a/app/main.py b/app/main.py\n@@ -12,6 +12,9 @@\n+from .ai import RepoInsights\n+\n+@app.get('/api/repos/{repo}/insights')\n+async def repo_insights(repo: str): ...\n",
      )
          ∷ (
            pos 44,
            "diff --git a/app/auth.py b/app/auth.py\n@@ -20,7 +20,8 @@\n-if not signature:\n+if not signature or not timestamp:\n     raise HTTPException(status_code=401)\n",
          )
          ∷ []),
    )
      ∷ (
        "platform-web",
        ((
          pos 13,
          "diff --git a/src/components/dashboard.tsx b/src/components/dashboard.tsx\n@@ -1,4 +1,6 @@\n+const LoadingState = () => <Spinner />\n export default function Dashboard() { ... }\n",
        )
            ∷ []),
      )
      ∷ [])

-- What was there before is replaced.
unfoldable pub seed : DemoData → DemoData
seed s = record {
  repos = repos;
  pulls_by_repo = pulls;
  issues_by_repo = issues;
  collaborators_by_repo = collaborators;
  pull_diffs_by_repo = diffs;
}
