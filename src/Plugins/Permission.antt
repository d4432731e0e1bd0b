-- ===== src/Plugins/Permission.antt =====
-- Which plugins backend/app/platform/plugin_framework.py runs.
use gitvibe_dev.Prelude.{
  String, ◌≡◌, refl, sym, ap, ◌∙◌, ◌⊎◌, inl, inr, true, false, some, List, [], ◌∷◌, contains,
  Option-cases, Bool-cases,
}
use gitvibe_dev.Prelude.Table.{at}
use gitvibe_dev.Exc.{Result, ok, raised, plugin_error, bind_ok, Result-cases}
use gitvibe_dev.Json.{Fields}
use gitvibe_dev.Json.Convert.{concat}
use gitvibe_dev.Plugins.{
  PluginManifest, PluginExecutionContext, Framework, Surroundings, register_manifest,
  legacy_manifest, resolve_manifest, ensure_permission, run_resolved, run_plugin,
}

-- The manifest that a run goes by: a registered one, or the legacy one of an allowed plugin.
pub record IsPermitted (f : Framework) (plugin_name required : String) : Type 0 where
  pub manifest : PluginManifest
  pub origin :
      (at plugin_name f.registry.manifests ≡ some manifest)
      ⊎ ((contains plugin_name f.legacy_allowlist ≡ true)
          × (manifest ≡ legacy_manifest f.plugins_root plugin_name))
  pub granted : contains required manifest.permissions ≡ true

ok_inj : {A : Type 0} {a b : A} → ok a ≡ ok b → a ≡ b
ok_inj h = cc

resolve_manifest-origin :
    (plugin_name : String) (f f' : Framework) (p : PluginManifest)
    → resolve_manifest plugin_name f ≡ ok (p, f')
    → (at plugin_name f.registry.manifests ≡ some p)
      ⊎ ((contains plugin_name f.legacy_allowlist ≡ true)
          × (p ≡ legacy_manifest f.plugins_root plugin_name))
unfolding resolve_manifest
resolve_manifest-origin plugin_name f f' p h =
    elim (Option-cases (at plugin_name f.registry.manifests)) [
      | inr (q, there) ↦
          inl (there ∙ ap (λ x. some x.0) (ok_inj (rw (there, resolve_manifest) at h)))
      | inl missing ↦ elim (Bool-cases (contains plugin_name f.legacy_allowlist)) [
        | inr foreign ↦ absurd (cc (rw (missing, foreign, resolve_manifest) at h))
        | inl allowed ↦
            let (registry, e, same) =
              bind_ok
                (register_manifest (legacy_manifest f.plugins_root plugin_name) false f.registry) _
                (rw (missing, allowed, resolve_manifest) at h) in
            inr (allowed, sym (ap (λ x. x.0) (ok_inj same)))
      ]
    ]

module _ (env : Surroundings) (plugin_name : String) (args : List String)
    (context : PluginExecutionContext) (required : String) (f : Framework) where
  run_resolved-ok :
      (p : PluginManifest) (allowed : Result (Unit {0})) (f' : Framework) (result : Fields)
      → (run_resolved env plugin_name args context p allowed f').0 ≡ ok result
      → allowed ≡ ok tt
  unfolding run_resolved
  run_resolved-ok p (ok u) f' result h = refl
  run_resolved-ok p (raised e) f' result h = cc

  ensure_permission-ok :
      (p : PluginManifest)
      → ensure_permission p required ≡ ok tt
      → contains required p.permissions ≡ true
  unfolding ensure_permission
  ensure_permission-ok p h = elim (Bool-cases (contains required p.permissions)) [
    | inl granted ↦ granted
    | inr denied ↦ absurd (cc (rw denied at h))
  ]

  ensure_permission-denied :
      (p : PluginManifest)
      → contains required p.permissions ≡ false
      → (message : String) × (ensure_permission p required ≡ raised (plugin_error 403 message))
  unfolding ensure_permission
  ensure_permission-denied p denied = (
    concat (
        "Plugin '" ∷ p.name ∷ "' (version " ∷ p.version ∷ ") does not grant permission '" ∷ required
        ∷ "'." ∷ []),
    rw denied refl,
  )

  stops :
      (p : PluginManifest) (message : String)
      → run_resolved env plugin_name args context p (raised (plugin_error 403 message)) f
        ≡ (raised (plugin_error 403 message), f)
  unfolding run_resolved
  stops p message = refl

  -- A run that returns a result goes by a manifest that grants the required permission, and that
  -- manifest is registered, or the plugin is in the allowlist.
  pub run_plugin-IsPermitted :
      (result : Fields)
      → (run_plugin env plugin_name args context required f).0 ≡ ok result
      → IsPermitted f plugin_name required
  unfolding run_plugin
  run_plugin-IsPermitted result h = elim (Result-cases (resolve_manifest plugin_name f)) [
    | inr (e, failed) ↦ absurd (cc (rw (failed, run_plugin) at h))
    | inl ((p, f'), e) ↦ record {
      manifest = p;
      origin = resolve_manifest-origin plugin_name f f' p e;
      granted =
          ensure_permission-ok p
            (run_resolved-ok p (ensure_permission p required) f' result (rw (e, run_plugin) at h));
    }
  ]

  -- A registered plugin that lacks the required permission is refused with 403: it is not run, and
  -- no event is published.
  pub run_plugin_denied :
      (p : PluginManifest)
      → at plugin_name f.registry.manifests ≡ some p
      → contains required p.permissions ≡ false
      → (message : String) × (run_plugin env plugin_name args context required f
          ≡ (raised (plugin_error 403 message), f))
  unfolding run_plugin resolve_manifest
  run_plugin_denied p there denied =
      let (message, refused) = ensure_permission-denied p denied in
      (message, rw (there, refused, run_plugin) (stops p message))
