-- ===== src/WorkerProto/Manifests/RoundTrip.antt =====
-- The round trip of a manifest, and where the names of languages and build systems break it: `manifest`
-- and `decode_manifest`.
use kide.Base.{◌≡◌, refl, Text, utf8, text_eq, ℕ_discrete, List, [], ◌∷◌, ◌++◌, map, All}
use kide.Base.Results.{ok}
use kide.Canonical.{
  Language, BuildSystem, Component, DependencyTarget, DependencyEdge, ProjectManifest,
}
use kide.WorkerProto.Names.{decode_language}
use kide.WorkerProto.Facts.{proto_provenance, decode_provenance}
use kide.WorkerProto.Control.RoundTrip.{collect_results-map, trivially}
use kide.WorkerProto.Manifests.{
  decode_build_system, proto_target, decode_target, proto_dependency, decode_dependency,
  decode_component, decode_manifest, language_debug, build_system_debug, proto_component,
  proto_manifest,
}

pub data HasVariant : Language → Type 0 where
  kotlin : HasVariant Language.kotlin
  java : HasVariant Language.java
  rust : HasVariant Language.rust
  type_script : HasVariant Language.type_script

pub data IsKnownBuild : BuildSystem → Type 0 where
  gradle : IsKnownBuild BuildSystem.gradle
  maven : IsKnownBuild BuildSystem.maven
  cargo : IsKnownBuild BuildSystem.cargo
  npm : IsKnownBuild BuildSystem.npm
  bazel : IsKnownBuild BuildSystem.bazel
  filesystem : IsKnownBuild BuildSystem.filesystem

pub record IsPlain (component : Component) : Type 0 where
  pub languages : All HasVariant component.languages
  pub build_system : IsKnownBuild component.build_system

target_round : (target : DependencyTarget) → decode_target (proto_target target) ≡ target
unfolding decode_target proto_target
target_round (DependencyTarget.component component) = refl
target_round (DependencyTarget.artifact content) = refl

dependency_round : (edge : DependencyEdge) → decode_dependency (proto_dependency edge) ≡ ok edge
unfolding decode_dependency proto_dependency
dependency_round edge = rw (target_round edge.target) refl

module _ (quoted : Text → Text) where
  language_round : {l : Language} → HasVariant l → decode_language (language_debug quoted l) ≡ l
  unfolding decode_language language_debug text_eq ℕ_discrete
  language_round kotlin = refl
  language_round java = refl
  language_round rust = refl
  language_round type_script = refl

  debug_languages :
      (languages : List Language)
      → All HasVariant languages
      → map decode_language (map (language_debug quoted) languages) ≡ languages
  debug_languages [] own = refl
  debug_languages (l ∷ languages) (mine, own) =
      rw (language_round mine, debug_languages languages own)

  build_system_round :
      {b : BuildSystem} → IsKnownBuild b → decode_build_system (build_system_debug quoted b) ≡ b
  unfolding decode_build_system build_system_debug text_eq ℕ_discrete
  build_system_round gradle = refl
  build_system_round maven = refl
  build_system_round cargo = refl
  build_system_round npm = refl
  build_system_round bazel = refl
  build_system_round filesystem = refl

  components_round :
      (components : List Component)
      → All IsPlain components
      → map decode_component (map (proto_component quoted) components) ≡ components
  unfolding decode_component proto_component
  components_round [] own = refl
  components_round (c ∷ components) (mine, own) = rw (
    build_system_round mine.build_system,
    debug_languages c.languages mine.languages,
    components_round components own,
  )

  pub decode_manifest-proto_manifest :
      (manifest : ProjectManifest)
      → All IsPlain manifest.components
      → decode_manifest (proto_manifest quoted manifest) ≡ ok manifest
  unfolding decode_manifest proto_manifest decode_provenance proto_provenance
  decode_manifest-proto_manifest manifest plain =
      rw
        (
          collect_results-map proto_dependency decode_dependency (λ (e : DependencyEdge). Unit {0})
              (λ e own. dependency_round e) manifest.dependencies (trivially manifest.dependencies),
          components_round manifest.components plain,
        )
        refl

  -- Another language of a manifest's component comes back under another name: its `Debug` form.
  pub other_language_renamed :
      (name : Text)
      → decode_language (language_debug quoted (Language.other name))
        ≡ Language.other (utf8 "other(" ++ (quoted name ++ utf8 ")"))
  unfolding decode_language language_debug text_eq ℕ_discrete
  other_language_renamed name = refl
