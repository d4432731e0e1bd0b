-- ===== src/Lib.antt =====
-- A verification library for the GitVibe backend (backend/app, Python).
--
-- The backend is a FastAPI program. A request passes the payload and rate limits, its bearer token
-- is verified, and a route asks a git provider (GitHub, or the demo data) or one of the platform
-- services; slow work goes to a background queue that is kept in an encrypted vault, and services
-- report through an event bus and an audit log.
--
-- Which module models what:
--   JobQueue   backend/app/job_queue.py. `load_state` is _load_state, `dequeue` is
--              _dequeue_next_job_id with its loop `scan` of one `visit` per turn, `enqueue`,
--              `mark_completed` and `mark_failed_or_retry` are the methods, `worker_turn` one turn of
--              _worker_loop. Its children are about these: Loading, Dequeue, Timely, Restored, Frame, Kept
--              and Places (what a call leaves as it is), Attempts and Retry (the runs of a job that fails),
--              Progress (turns of the worker with requests between them) and Lifecycle, which
--              orders the methods as steps of the program, its worker and its restarts.
--   EventBus   backend/app/platform/event_bus.py: `subscribe`, `unsubscribe`, `publish`, `recent`.
--   RateLimit  the two limiting middlewares of backend/app/security.py: `check_size`, `dispatch`.
--   Middleware the stack of the four middlewares of backend/app/security.py around a route, in the
--              order of backend/app/main.py: `serve` is the request log around the secure headers
--              around the rate limit around the payload limit.
--   Config     SecurityConfig.from_env of backend/app/security.py and what backend/app/main.py
--              reads from the environment for the parts that it starts.
--   Tokens     TokenService of backend/app/security.py: `issue_token_pair`, `decode_token`
--              (_decode_token), `verify_access_token`, `rotate_refresh_token`,
--              `rotate_signing_key`; Tokens.Codec says what is used of PyJWT.
--   Demo       backend/app/demo_service.py, with its seed in Demo.Seed.
--   Providers  backend/app/platform/git_providers.py: the interface `GitProvider`, the providers
--              for GitHub, the demo data and GitLab, and the router.
--   Api        backend/app/main.py: modes, roles, CSRF tokens and the choice of a provider; its
--              child Repos has the routes for repositories, Sessions those for tokens, Runs those
--              that run an agent, a workflow or a plugin.
--   Plugins    backend/app/platform/plugin_framework.py: the registry, `resolve_manifest`,
--              `ensure_permission` and `run_plugin`; Plugins.Sandbox is `execute` of
--              backend/app/plugin_sandbox.py.
--   Agents     backend/app/platform/agent_framework.py: `register_agent` and `run_agent`, with the
--              events that a run publishes.
--   Workflows  backend/app/platform/workflow_engine.py: `register_workflow`, and in Workflows.Steps
--              `execute_step`, the loop `run_steps` and `run_workflow`.
--   Vault      backend/app/vault.py: `get_value`, `set_value`, `delete_value` and
--              `rotate_master_key` are its get, set, delete and rotate_master_key.
--   Github     backend/app/github_service.py: Github.Oauth and Github.Callback have the sign-in,
--              Github.Requests the stored tokens and the requests, Github.Calls the operations that
--              the GitHub provider uses, Github.Url what is done to texts.
--   Reviews    backend/app/ai_service.py: the prompt, and in Reviews.Models the two providers;
--              Reviews.Jobs has the review context, the job, the agent and the routes for reviews of
--              backend/app/main.py.
--   Json, Exc, Audit, Prelude
--              the values, exceptions and audit events that all parts share.
--
-- State is passed explicitly: a method takes the fields that it uses and returns what it returns
-- or raises with the new state. What a method draws (ids, tokens, the time) is an argument. Times
-- are in millionths of a second, and one reading of the clock stands for all readings of a call.
-- Dicts keep their order of insertion. Texts are read as ASCII where they are stripped, lowered or
-- compared. No function has fuel: the loop of `dequeue` runs as often as the queue was long, as
-- the code's `for` does, and the other loops go over a list.
--
-- Parameters stand for what is not in the repository or not modelled: PyJWT and SHA-256, `str`
-- and `float` of values (Builtins), the handlers of jobs, events and agents, hooks and plugins,
-- the file system and subprocesses (Files, Run), Fernet and JSON texts (Crypto, with the behaviour
-- that is relied on in CryptoLaws), and httpx: what is answered to a request, given the requests
-- before it (Outside), or to a request of a review (AiClient). The state of the GitHub service has
-- the list of the requests that were sent. For the job queue and the token service the vault is the
-- dict of its contents.
--
-- A handler of the event bus or of an agent may use the bus that it is called on, and changes nothing
-- else of the model; hooks and plugins only return or raise. What other requests publish while a call
-- awaits a handler has no definition.
--
-- Not modelled: the discovery of plugin manifests, the routes for the GitHub sign-in and
-- the listings of the platform, the files that the logs are written to, the installer and the
-- user interfaces.
pub mod Prelude
pub mod Exc
pub mod Json
pub mod Audit
pub mod JobQueue
pub mod EventBus
pub mod RateLimit
pub mod Tokens
pub mod Demo
pub mod Providers
pub mod Api
pub mod Plugins
pub mod Agents
pub mod Vault
pub mod Workflows
pub mod Github
pub mod Reviews
pub mod Config
pub mod Middleware
