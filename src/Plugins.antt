-- ===== src/Plugins.antt =====
-- backend/app/platform/plugin_framework.py: the registry of plugins, their permissions and runs.
-- Sets are lists; hooks and handlers of events are known by numbers, and either return or raise.
pub mod Sandbox
pub mod Permission
pub mod Tests
use Prim.Native.Char.{Char, code}
use Prim.Native.String
use gitvibe_dev.Prelude.{
  ℕ, String, Bool, true, false, not, ◌&&◌, ◌||◌, Option, none, some, List, [], ◌∷◌, ◌++◌, map,
  contains, leb, nat_eq, if◌then◌else◌,
}
use gitvibe_dev.Prelude.Table.{Table, at, set_at, rows}
use gitvibe_dev.Prelude.Sort.{sort_by, sorted_set}
use gitvibe_dev.Exc.{Exc, Result, ok, raised, plugin_error, ◌>>=◌}
use gitvibe_dev.Json.{Value, null, str, arr, obj, Fields, end, field, of_strings}
use gitvibe_dev.Json.Dict.{get, get_or, put, merge}
use gitvibe_dev.Json.Convert.{strip, is_empty, concat}
use gitvibe_dev.EventBus.{EventBus, EventEnvelope, Subscribers, envelope, publish}

pub record PluginManifest : Type 0 where
  pub name : String
  pub version : String
  pub runtime : String
  pub description : String
  pub permissions : List String
  pub extension_points : List String
  pub git_providers : List String
  pub entrypoint : Option String

abbrev pub text_or_null : Option String → Value
text_or_null none = null
text_or_null (some s) = str s

-- `PluginManifest.to_dict`
unfoldable pub to_dict : PluginManifest → Fields
to_dict p = field "name" (str p.name) (
    field "version" (str p.version) (
      field "runtime" (str p.runtime) (
        field "description" (str p.description) (
          field "permissions" (arr (of_strings (sorted_set p.permissions))) (
            field "extension_points" (arr (of_strings (sorted_set p.extension_points))) (
              field "git_providers" (arr (of_strings (sorted_set p.git_providers)))
                (field "entrypoint" (text_or_null p.entrypoint) end)))))))

pub record PluginExecutionContext : Type 0 where
  pub actor : String
  pub role : String
  pub request_id : String
  pub git_provider : String
  pub metadata : Fields

-- A plugin of the SDK: its descriptor and what `execute` does.
pub record SdkPlugin : Type 0 where
  pub name : String
  pub version : String
  pub permissions : List String
  pub extension_points : List String
  pub runtime : String
  pub description : String
  pub execute : PluginExecutionContext → List String → Result Fields

pub record Registry : Type 0 where
  pub manifests : Table PluginManifest
  pub sdk_plugins : Table SdkPlugin

abbrev is_digit : Char → Bool
is_digit c = leb 48 (code c) && leb (code c) 57

abbrev pub is_alnum : Char → Bool
is_alnum c =
    is_digit c || (leb 65 (code c) && leb (code c) 90) || (leb 97 (code c) && leb (code c) 122)

abbrev is_build : Char → Bool
is_build c = is_alnum c || nat_eq (code c) 46 || nat_eq (code c) 45

abbrev pub only : (Char → Bool) → String → Bool
only p String.[] = true
only p (String.◌∷◌ c s) = p c && only p s

-- The rest of a version: `parts` numbers are still to be read after this one, and `started` says
-- that the number has a digit already.
unfoldable version_rest : List ℕ → Bool → String → Bool
version_rest [] started String.[] = started
version_rest (n ∷ parts) started String.[] = false
version_rest [] started (String.◌∷◌ c s) =
    let more = version_rest [] true s in
    if is_digit c
    then more
    else started
      && (nat_eq (code c) 45 || nat_eq (code c) 43)
      && not (is_empty s)
      && only is_build s
version_rest (n ∷ parts) started (String.◌∷◌ c s) =
    let more = version_rest (n ∷ parts) true s in
    let following = version_rest parts false s in
    if is_digit c then more else started && nat_eq (code c) 46 && following

-- `SEMVER_PATTERN.fullmatch(version)`: three numbers, and a suffix after `-` or `+`
unfoldable pub is_semver : String → Bool
unfolding version_rest
is_semver version = version_rest (2 ∷ 1 ∷ []) false version

-- `_validate_manifest`
unfoldable pub validate_manifest : PluginManifest → Result (Unit {0})
unfolding is_semver
validate_manifest p =
    if is_empty (strip p.name)
    then raised (plugin_error 400 "Plugin name cannot be empty.")
    else if is_semver p.version
    then ok tt
    else raised
        (plugin_error 400 (concat ("Plugin '" ∷ p.name ∷ "' version must be semver-like." ∷ [])))

-- `register_manifest`
unfoldable pub register_manifest : PluginManifest → Bool → Registry → Result Registry
unfolding validate_manifest
register_manifest p replace r = validate_manifest p >>= λ _.
    let there : Bool = elim (at p.name r.manifests) [ none ↦ false | some _ ↦ true ] in
    ok (if not replace && there then r else record r { manifests = set_at p.name p r.manifests })

-- `PluginRegistry.register_sdk_plugin`
unfoldable pub register_sdk_plugin : SdkPlugin → Registry → Result Registry
unfolding register_manifest
register_sdk_plugin plugin r =
    let p : PluginManifest = record {
      name = plugin.name;
      version = plugin.version;
      runtime = plugin.runtime;
      description = plugin.description;
      permissions = plugin.permissions;
      extension_points = plugin.extension_points;
      git_providers = "github" ∷ "gitlab" ∷ "gitea" ∷ "bitbucket" ∷ [];
      entrypoint = some (concat ("sdk://" ∷ plugin.name ∷ []));
    } in
    register_manifest p true r >>= λ r'.
    ok (record r' { sdk_plugins = set_at p.name plugin r'.sdk_plugins })

unfoldable pub list_manifests : Registry → List Fields
unfolding to_dict
list_manifests r = map to_dict (
    sort_by (λ (p : PluginManifest). p.name)
      (map (λ (e : String × PluginManifest). e.1) r.manifests))

abbrev pub Hook : Type 0
Hook = ℕ

pub record Framework : Type 0 where
  pub bus : EventBus
  pub registry : Registry
  pub plugins_root : String
  pub legacy_allowlist : List String
  pub hooks : Table (List Hook)
  pub extension_points : Table String

-- `register_hook`
unfoldable pub register_hook : String → Hook → Framework → Result Framework
register_hook extension_point callback f = elim (at extension_point f.extension_points) [
  | none ↦ raised (plugin_error 404 (concat ("Unknown extension point: " ∷ extension_point ∷ [])))
  | some _ ↦ ok (record f {
    hooks = set_at extension_point (rows extension_point f.hooks ++ callback ∷ []) f.hooks;
  })
]

-- `_legacy_manifest`
abbrev pub legacy_manifest : String → String → PluginManifest
legacy_manifest plugins_root plugin_name = record {
  name = plugin_name;
  version = "0.1.0-legacy";
  runtime = "legacy";
  description = "Auto-registered legacy plugin.";
  permissions = "plugin:execute" ∷ [];
  extension_points = "plugin.pre_execute" ∷ "plugin.post_execute" ∷ [];
  git_providers = "github" ∷ [];
  entrypoint = some (concat (plugins_root ∷ "/" ∷ plugin_name ∷ []));
}

-- `_resolve_manifest`
unfoldable pub resolve_manifest : String → Framework → Result (PluginManifest × Framework)
unfolding register_manifest
resolve_manifest plugin_name f = elim (at plugin_name f.registry.manifests) [
  | some p ↦ ok (p, f)
  | none ↦
      let legacy = legacy_manifest f.plugins_root plugin_name in
      if contains plugin_name f.legacy_allowlist
      then (register_manifest legacy false f.registry >>= λ registry.
          ok (legacy, record f { registry = registry }))
      else raised (plugin_error 403 "Plugin is not in the allowlist.")
]

-- `_ensure_permission`
unfoldable pub ensure_permission : PluginManifest → String → Result (Unit {0})
ensure_permission p required_permission =
    if contains required_permission p.permissions
    then ok tt
    else raised (
        plugin_error 403 (
          concat (
            "Plugin '" ∷ p.name ∷ "' (version " ∷ p.version ∷ ") does not grant permission '"
            ∷ required_permission ∷ "'." ∷ [])))

-- The hooks of an extension point, called in turn; one that raises ends the run.
unfoldable pub run_hooks : (Hook → Fields → Option Exc) → Fields → List Hook → Result (Unit {0})
run_hooks run payload [] = ok tt
run_hooks run payload (h ∷ hooks) = elim (run h payload) [
  | some e ↦ raised e
  | none ↦ run_hooks run payload hooks
]

-- `except PluginFrameworkError: raise` and `except Exception as exc` around a plugin; `text` is
-- `str(exc)`.
abbrev pub as_plugin_error : (Exc → String) → Result Fields → Result Fields
as_plugin_error text (ok result) = ok result
as_plugin_error text (raised (plugin_error status_code message)) =
    raised (plugin_error status_code message)
as_plugin_error text (raised e) = raised (plugin_error 403 (text e))

-- What a run meets outside of the framework: subscribers, hooks, the sandbox, and the ids and
-- times that are drawn.
pub record Surroundings : Type 0 where
  pub handle : Subscribers
  pub hook : Hook → Fields → Option Exc
  pub legacy_executor : Option (String → List String → Result Fields)
  pub text : Exc → String
  pub pre_id : String
  pub post_id : String
  pub fresh_id : String
  pub now : ℕ

module _ (env : Surroundings) (plugin_name : String) (args : List String)
    (context : PluginExecutionContext) where
  -- An event on the bus, and then the hooks of the extension point of the same name
  unfoldable pub announce :
      String → String → Fields → Fields → Framework → Result (Unit {0}) × Framework
  unfolding run_hooks publish envelope
  announce id point event payload f =
      let (bus, called, r) =
        publish env.handle (envelope id env.now point event "plugin-framework") f.bus in
      (r >>= λ _. run_hooks env.hook payload (rows point f.hooks), record f { bus = bus })

  unfoldable pub event_payload : PluginManifest → Fields
  event_payload p = field "plugin" (str plugin_name) (
      field "version" (str p.version) (
        field "runtime" (str p.runtime) (
          field "actor" (str context.actor) (
            field "request_id" (str context.request_id) (
              field "git_provider" (str context.git_provider)
                (field "args" (arr (of_strings args)) end))))))

  -- The plugin itself: the SDK's if it is registered, and the sandbox otherwise
  unfoldable pub execute_plugin : Framework → Result Fields
  execute_plugin f = elim (at plugin_name f.registry.sdk_plugins) [
    | some plugin ↦ as_plugin_error env.text (plugin.execute context args)
    | none ↦ elim env.legacy_executor [
      | none ↦ raised (plugin_error 503 "No legacy plugin executor configured.")
      | some run ↦ as_plugin_error env.text (run plugin_name args)
    ]
  ]

  unfoldable pub final_result : PluginManifest → Fields → Fields
  final_result p result =
      merge
        (field "plugin" (str p.name) (
          field "version" (str p.version) (
            field "runtime" (str p.runtime) (
              field "request_id"
                (str (if is_empty context.request_id then env.fresh_id else context.request_id))
                end))))
        result

  -- What follows the plugin's answer
  unfoldable pub finish_run : PluginManifest → Result Fields → Framework → Result Fields × Framework
  unfolding announce event_payload final_result
  finish_run p (raised e) f = (raised e, f)
  finish_run p (ok result) f =
      let final = final_result p result in
      let (r, f') =
        announce env.post_id "plugin.post_execute"
          (put "result_status" (get_or "status" (str "unknown") final) (event_payload p))
          (put "result" (obj final) (event_payload p)) f in
      (r >>= λ _. ok final, f')

  unfoldable pub run_resolved :
      PluginManifest → Result (Unit {0}) → Framework → Result Fields × Framework
  unfolding announce event_payload execute_plugin finish_run
  run_resolved p (raised e) f = (raised e, f)
  run_resolved p (ok _) f =
      let (r, f') =
        announce env.pre_id "plugin.pre_execute" (event_payload p) (event_payload p) f in
      finish_run p (r >>= λ _. execute_plugin f') f'

  -- `run_plugin`
  unfoldable pub run_plugin : String → Framework → Result Fields × Framework
  unfolding resolve_manifest ensure_permission run_resolved
  run_plugin required_permission f = elim (resolve_manifest plugin_name f) [
    | raised e ↦ (raised e, f)
    | ok (p, f') ↦ run_resolved p (ensure_permission p required_permission) f'
  ]
