-- ===== src/Plugins/Tests.antt =====
-- The plugin framework and the sandbox at concrete inputs.
use gitvibe_dev.Prelude.{String, ◌≡◌, refl, true, false, none, some, [], ◌∷◌}
use gitvibe_dev.Prelude.Int.{pos}
use gitvibe_dev.Exc.{ok, raised, plugin_error}
use gitvibe_dev.Json.{Fields, end, field, str, int}
use gitvibe_dev.Json.Convert.{strip}
use gitvibe_dev.EventBus.{new}
use gitvibe_dev.Plugins.{
  PluginExecutionContext, Framework, Surroundings, is_semver, legacy_manifest, final_result,
  run_plugin,
}
use gitvibe_dev.Plugins.Permission.{IsPermitted, run_plugin-IsPermitted, run_plugin_denied}
use gitvibe_dev.Plugins.Sandbox.{
  Files, PluginSandbox, Run, finished, command, execute, report, is_plugin_name, has_char,
  IsConfined, execute-IsConfined,
}

versions :
    (is_semver "1.20.3" ≡ true)
    × (is_semver "0.1.0-legacy" ≡ true)
    × (is_semver "1.2" ≡ false)
    × (is_semver "1.2.3-" ≡ false)
unfolding is_semver
versions = (refl, refl, refl, refl)

names :
    (is_plugin_name "lint_v2.sh" ≡ true)
    × (is_plugin_name "a/b" ≡ false)
    × (is_plugin_name "" ≡ false)
unfolding is_plugin_name
names = (refl, refl, refl)

abbrev env : Surroundings
env = record {
  handle = λ h e bus. (none, bus);
  hook = λ h p. none;
  legacy_executor = some (λ name args. ok end);
  text = λ e. "?";
  pre_id = "e1";
  post_id = "e2";
  fresh_id = "r9";
  now = 1_000_000;
}

abbrev context : PluginExecutionContext
context = record {
  actor = "ada";
  role = "admin";
  request_id = "r1";
  git_provider = "github";
  metadata = end;
}

abbrev framework : Framework
framework = record {
  bus = new 100;
  registry = record {
    manifests = ("lint", legacy_manifest "/plugins" "lint") ∷ [];
    sdk_plugins = [];
  };
  plugins_root = "/plugins";
  legacy_allowlist = "scan" ∷ [];
  hooks = [];
  extension_points = [];
}

run_plugin-IsPermitted_example : IsPermitted framework "scan" "plugin:execute"
unfolding run_plugin is_semver strip
run_plugin-IsPermitted_example =
    run_plugin-IsPermitted env "scan" ("-v" ∷ []) context "plugin:execute" framework
      (final_result env "scan" ("-v" ∷ []) context (legacy_manifest "/plugins" "scan") end) refl

run_plugin_denied_tried :
    (message : String) × (run_plugin env "lint" [] context "repo:write" framework
      ≡ (raised (plugin_error 403 message), framework))
run_plugin_denied_tried =
    run_plugin_denied env "lint" [] context "repo:write" framework
      (legacy_manifest "/plugins" "lint") refl refl

abbrev files : Files
files = record {
  resolve = λ root name. "/plugins/scan";
  parents = λ path. "/plugins" ∷ "/" ∷ [];
  exists = λ path. true;
  is_file = λ path. true;
  is_executable = λ path. true;
}

abbrev run : Run
run = λ c. finished (record { returncode = pos 2; stdout = "out"; stderr = "" })

abbrev sandbox : PluginSandbox
sandbox = record {
  enabled = true;
  allowlist = "scan" ∷ [];
  plugins_root = "/plugins";
  timeout_seconds = pos 5;
}

abbrev answer : Fields
answer =
    field "status" (str "error")
      (field "return_code" (int (pos 2)) (field "stdout" (str "out") (field "stderr" (str "") end)))

execute-IsConfined_example :
    IsConfined files sandbox "scan" ("-v" ∷ []) "/plugins/scan"
    × (report (run (command sandbox "/tmp/w" "/plugins/scan" ("-v" ∷ []))) ≡ ok answer)
unfolding execute has_char
execute-IsConfined_example =
    execute-IsConfined files run "/tmp/w" "scan" ("-v" ∷ []) sandbox answer refl
