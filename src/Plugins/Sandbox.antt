-- ===== src/Plugins/Sandbox.antt =====
-- PluginSandbox.execute of backend/app/plugin_sandbox.py: what must hold before a plugin is started.
-- The file system and `subprocess.run` are parameters; paths are texts.
use Prim.Native.Char.{Char, code}
use gitvibe_dev.Prelude.{
  ℕ, zero, suc, ◌-◌, ◌≡◌, refl, String, Bool, true, false, not, ◌&&◌, ◌||◌, List, [], ◌∷◌, contains,
  any, nat_eq, if◌then◌else◌, arith,
}
use gitvibe_dev.Prelude.Int.{ℤ, pos, equals}
use gitvibe_dev.Exc.{Exc, Result, ok, raised, other, ◌>>=◌, bind_ok}
use gitvibe_dev.Json.{int, str, Fields, end, field}
use gitvibe_dev.Json.Convert.{is_empty}
use gitvibe_dev.Plugins.{is_alnum, only}

pub record Files : Type 0 where
  -- `(root / name).resolve()`
  pub resolve : String → String → String
  pub parents : String → List String
  pub exists : String → Bool
  pub is_file : String → Bool
  pub is_executable : String → Bool

pub record Process : Type 0 where
  pub returncode : ℤ
  pub stdout : String
  pub stderr : String

-- What `subprocess.run` is called with. `limits` are the resource limits of `_limit_resources`, each
-- both soft and hard; the call uses no shell and captures the output as text.
pub record Command : Type 0 where
  pub argv : List String
  pub cwd : String
  pub env : List (String × String)
  pub timeout_seconds : ℤ
  pub limits : List (String × ℕ)

-- What `subprocess.run` comes to: the process ends, or the time is over, or it raises anything else.
pub data Ran : Type 0 where
  finished : Process → Ran
  timed_out : Ran
  broke_off : Exc → Ran

abbrev pub Run : Type 0
Run = Command → Ran

pub record PluginSandbox : Type 0 where
  pub enabled : Bool
  pub allowlist : List String
  pub plugins_root : String
  pub timeout_seconds : ℤ

abbrev is_name_char : Char → Bool
is_name_char c = is_alnum c || nat_eq (code c) 46 || nat_eq (code c) 95 || nat_eq (code c) 45

-- `PLUGIN_NAME_PATTERN.fullmatch(name)`
unfoldable pub is_plugin_name : String → Bool
is_plugin_name name = not (is_empty name) && only is_name_char name

unfoldable pub has_char : ℕ → String → Bool
has_char n String.[] = false
has_char n (String.◌∷◌ c s) = nat_eq (code c) n || has_char n s

-- An argument with a line break
abbrev pub is_bad_arg : String → Bool
is_bad_arg item = has_char 10 item || has_char 13 item

-- `s[-n:]` for a positive n
abbrev chars : String → ℕ
chars String.[] = 0
chars (String.◌∷◌ c s) = suc (chars s)

abbrev drop_chars : ℕ → String → String
drop_chars zero s = s
drop_chars (suc n) String.[] = ""
drop_chars (suc n) (String.◌∷◌ c s) = drop_chars n s

abbrev pub last_chars : ℕ → String → String
last_chars n s = drop_chars (chars s - n) s

-- `if not test: raise PluginSandboxError(message)`
abbrev pub demand : Bool → String → Result (Unit {0})
demand test message = if test then ok tt else raised (other message)

-- `_limit_resources`, in seconds, bytes and numbers
abbrev pub resource_limits : List (String × ℕ)
resource_limits =
    ("RLIMIT_CPU", 2)
    ∷ ("RLIMIT_AS", 268_435_456)
    ∷ ("RLIMIT_FSIZE", 10_485_760)
    ∷ ("RLIMIT_NOFILE", 64)
    ∷ ("RLIMIT_NPROC", 32)
    ∷ []

-- The call of `subprocess.run`, in the temporary directory that was made for it
unfoldable pub command : PluginSandbox → String → String → List String → Command
command s working_dir plugin_path args = record {
  argv = plugin_path ∷ args;
  cwd = working_dir;
  env = ("PATH", "/usr/bin:/bin") ∷ ("HOME", working_dir) ∷ ("TMPDIR", working_dir) ∷ [];
  timeout_seconds = s.timeout_seconds;
  limits = resource_limits;
}

unfoldable pub report : Ran → Result Fields
report timed_out = raised (other "Plugin execution timed out.")
report (broke_off e) = raised e
report (finished proc) = ok (
    field "status" (str (if equals proc.returncode (pos 0) then "ok" else "error")) (
      field "return_code" (int proc.returncode) (
        field "stdout" (str (last_chars 4096 proc.stdout))
          (field "stderr" (str (last_chars 4096 proc.stderr)) end))))

-- `execute`; `working_dir` is the temporary directory that is made for the call.
unfoldable pub execute : Files → Run → String → String → List String → PluginSandbox → Result Fields
unfolding is_plugin_name report command
execute files run working_dir plugin_name args s =
    demand s.enabled "Plugin sandbox is disabled by default." >>= λ _.
    demand (contains plugin_name s.allowlist) "Plugin is not in the allowlist." >>= λ _.
    demand (is_plugin_name plugin_name) "Invalid plugin name." >>= λ _.
    let plugin_path = files.resolve s.plugins_root plugin_name in
    demand (contains s.plugins_root (files.parents plugin_path)) "Plugin path escapes sandbox root."
    >>= λ _.
        demand (files.exists plugin_path && files.is_file plugin_path) "Plugin binary not found."
        >>= λ _. demand (files.is_executable plugin_path) "Plugin is not executable." >>= λ _.
            demand (not (any is_bad_arg args)) "Invalid plugin arguments." >>= λ _.
            report (run (command s working_dir plugin_path args))

-- What a run of the sandbox has passed: `path` is what was started.
pub record IsConfined (files : Files) (s : PluginSandbox) (plugin_name : String)
    (args : List String) (path : String) : Type 0 where
  pub on : s.enabled ≡ true
  pub allowed : contains plugin_name s.allowlist ≡ true
  pub no_slash : has_char 47 plugin_name ≡ false
  pub no_break : has_char 10 plugin_name ≡ false
  pub inside : contains s.plugins_root (files.parents path) ≡ true
  pub file : files.exists path && files.is_file path ≡ true
  pub executable : files.is_executable path ≡ true
  pub clean_args : any is_bad_arg args ≡ false

demand-ok :
    (test : Bool) (message : String) (u : Unit {0}) → demand test message ≡ ok u → test ≡ true
demand-ok true message u h = refl
demand-ok false message u h = cc

not-true : (b : Bool) → not b ≡ true → b ≡ false
not-true true h = cc
not-true false h = refl

both : (a b : Bool) → a && b ≡ true → (a ≡ true) × (b ≡ true)
both true b h = (refl, h)
both false b h = cc

-- A text of name characters has none with a code outside of them.
only-has_char :
    (n : ℕ) (s : String)
    → ((c : Char) → is_name_char c ≡ true → nat_eq (code c) n ≡ false)
    → only is_name_char s ≡ true
    → has_char n s ≡ false
unfolding has_char
only-has_char n String.[] off h = refl
only-has_char n (String.◌∷◌ c s) off h =
    let (first, rest) = both (is_name_char c) (only is_name_char s) h in
    rw (off c first, only-has_char n s off rest) refl

name_char_codes :
    (c : Char) → is_name_char c ≡ true → (nat_eq (code c) 47 ≡ false) × (nat_eq (code c) 10 ≡ false)
name_char_codes c h = (ground arith, ground arith)

is_plugin_name-has_char :
    (name : String)
    → is_plugin_name name ≡ true
    → (has_char 47 name ≡ false) × (has_char 10 name ≡ false)
unfolding is_plugin_name
is_plugin_name-has_char name h =
    let (some_char, chars) = both (not (is_empty name)) (only is_name_char name) h in
    (
      only-has_char 47 name (λ c k. (name_char_codes c k).0) chars,
      only-has_char 10 name (λ c k. (name_char_codes c k).1) chars,
    )

-- The sandbox answers only for a plugin that it started in full confinement: it is enabled, the
-- plugin is in the allowlist, its name has neither a slash nor a line feed, its path is an
-- executable file below the root, and no argument has a line break.
pub execute-IsConfined :
    (files : Files) (run : Run) (working_dir plugin_name : String) (args : List String)
    (s : PluginSandbox) (result : Fields)
    → execute files run working_dir plugin_name args s ≡ ok result
    → IsConfined files s plugin_name args (files.resolve s.plugins_root plugin_name)
      × (report (run (command s working_dir (files.resolve s.plugins_root plugin_name) args))
          ≡ ok result)
unfolding execute
execute-IsConfined files run working_dir plugin_name args s result h =
    let (u₁, e₁, h₁) = bind_ok (demand s.enabled _) _ h in
    let (u₂, e₂, h₂) = bind_ok (demand (contains plugin_name s.allowlist) _) _ h₁ in
    let (u₃, e₃, h₃) = bind_ok (demand (is_plugin_name plugin_name) _) _ h₂ in
    let path = files.resolve s.plugins_root plugin_name in
    let (u₄, e₄, h₄) = bind_ok (demand (contains s.plugins_root (files.parents path)) _) _ h₃ in
    let (u₅, e₅, h₅) = bind_ok (demand (files.exists path && files.is_file path) _) _ h₄ in
    let (u₆, e₆, h₆) = bind_ok (demand (files.is_executable path) _) _ h₅ in
    let (u₇, e₇, h₇) = bind_ok (demand (not (any is_bad_arg args)) _) _ h₆ in
    let (slash, break) = is_plugin_name-has_char plugin_name (demand-ok _ _ u₃ e₃) in
    (
      record {
        on = demand-ok _ _ u₁ e₁;
        allowed = demand-ok _ _ u₂ e₂;
        no_slash = slash;
        no_break = break;
        inside = demand-ok _ _ u₄ e₄;
        file = demand-ok _ _ u₅ e₅;
        executable = demand-ok _ _ u₆ e₆;
        clean_args = not-true _ (demand-ok _ _ u₇ e₇);
      },
      h₇,
    )
