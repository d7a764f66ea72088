-- ===== src/WorkerProto/Manifests.antt =====
-- `manifest` and `decode_manifest`. The languages and the build system of a component are written by
-- their `Debug` names in lower case; `quoted` is what the standard library makes of the name of
-- another one.
pub mod RoundTrip
use kide.Base.{ℕ, Text, utf8, text_eq, List, [], ◌∷◌, ◌++◌, map, Option, none, some, Bool}
use kide.Base.{◌==◌, if◌then◌else◌}
use kide.Base.Results.{Result, ok, err, ◌>>=◌, ok_or}
use kide.Canonical.{
  Language, BuildSystem, Component, SourceSet, Toolchain, DependencyTarget, DependencyEdge,
  ProjectManifest,
}
use kide.WorkerProto.Wire.{AdapterError, missing, WireProvenance}
use kide.WorkerProto.Names.{decode_language}
use kide.WorkerProto.Facts.{collect_results, proto_provenance, decode_provenance, map_option}

unfoldable pub decode_build_system : Text → BuildSystem
decode_build_system value =
    if value == utf8 "gradle"
    then BuildSystem.gradle
    else if value == utf8 "maven"
    then BuildSystem.maven
    else if value == utf8 "cargo"
    then BuildSystem.cargo
    else if value == utf8 "npm"
    then BuildSystem.npm
    else if value == utf8 "bazel"
    then BuildSystem.bazel
    else if value == utf8 "filesystem"
    then BuildSystem.filesystem
    else BuildSystem.other value

-- A source set and a toolchain have the same fields on the wire, and are read as themselves.
pub record WireComponent : Type 0 where
  pub id : Text
  pub name : Text
  pub build_system : Text
  pub root : Text
  pub languages : List Text
  pub configuration_fingerprint : Text
  pub source_sets : List SourceSet
  pub classpath_fingerprints : List Text
  pub toolchain : Option Toolchain
  pub compiler_configuration_fingerprint : Option Text

pub data WireTarget : Type 0 where
  component_id : Text → WireTarget
  artifact_fingerprint : Text → WireTarget

pub record WireDependencyEdge : Type 0 where
  pub from_component_id : Text
  pub target : Option WireTarget
  pub scope : Text

pub record WireManifest : Type 0 where
  pub workspace : Text
  pub root : Text
  pub components : List WireComponent
  pub dependencies : List WireDependencyEdge
  pub fingerprint : Text
  pub provenance : Option WireProvenance

unfoldable pub proto_target : DependencyTarget → WireTarget
proto_target (DependencyTarget.component component) = component_id component
proto_target (DependencyTarget.artifact content) = artifact_fingerprint content

unfoldable pub decode_target : WireTarget → DependencyTarget
decode_target (component_id component) = DependencyTarget.component component
decode_target (artifact_fingerprint content) = DependencyTarget.artifact content

unfoldable pub proto_dependency : DependencyEdge → WireDependencyEdge
unfolding proto_target
proto_dependency edge = record {
  from_component_id = edge.from;
  target = some (proto_target edge.target);
  scope = edge.scope;
}

unfoldable pub decode_dependency : WireDependencyEdge → Result DependencyEdge AdapterError
unfolding decode_target
decode_dependency edge = do
  target ← ok_or edge.target (missing (utf8 "dependency.target"))
  ok (record { from = edge.from_component_id; target = decode_target target; scope = edge.scope })

unfoldable pub decode_component : WireComponent → Component
unfolding decode_build_system
decode_component component = record {
  id = component.id;
  name = component.name;
  build_system = decode_build_system component.build_system;
  root = component.root;
  languages = map decode_language component.languages;
  configuration = component.configuration_fingerprint;
  source_sets = component.source_sets;
  classpath = component.classpath_fingerprints;
  toolchain = component.toolchain;
  compiler_configuration = component.compiler_configuration_fingerprint;
}

unfoldable pub decode_manifest : WireManifest → Result ProjectManifest AdapterError
unfolding decode_component decode_dependency
decode_manifest value = do
  provenance ← ok_or value.provenance (missing (utf8 "manifest.provenance"))
  dependencies ← collect_results decode_dependency value.dependencies
  ok (record {
    workspace = value.workspace;
    root = value.root;
    components = map decode_component value.components;
    dependencies = dependencies;
    fingerprint = value.fingerprint;
    provenance = decode_provenance provenance;
  })

module _ (quoted : Text → Text) where
  unfoldable pub language_debug : Language → Text
  language_debug Language.kotlin = utf8 "kotlin"
  language_debug Language.java = utf8 "java"
  language_debug Language.rust = utf8 "rust"
  language_debug Language.type_script = utf8 "typescript"
  language_debug (Language.other value) = utf8 "other(" ++ (quoted value ++ utf8 ")")

  unfoldable pub build_system_debug : BuildSystem → Text
  build_system_debug BuildSystem.gradle = utf8 "gradle"
  build_system_debug BuildSystem.maven = utf8 "maven"
  build_system_debug BuildSystem.cargo = utf8 "cargo"
  build_system_debug BuildSystem.npm = utf8 "npm"
  build_system_debug BuildSystem.bazel = utf8 "bazel"
  build_system_debug BuildSystem.filesystem = utf8 "filesystem"
  build_system_debug (BuildSystem.other value) = utf8 "other(" ++ (quoted value ++ utf8 ")")

  unfoldable pub proto_component : Component → WireComponent
  unfolding language_debug build_system_debug
  proto_component component = record {
    id = component.id;
    name = component.name;
    build_system = build_system_debug component.build_system;
    root = component.root;
    languages = map language_debug component.languages;
    configuration_fingerprint = component.configuration;
    source_sets = component.source_sets;
    classpath_fingerprints = component.classpath;
    toolchain = component.toolchain;
    compiler_configuration_fingerprint = component.compiler_configuration;
  }

  unfoldable pub proto_manifest : ProjectManifest → WireManifest
  unfolding proto_component proto_dependency
  proto_manifest value = record {
    workspace = value.workspace;
    root = value.root;
    components = map proto_component value.components;
    dependencies = map proto_dependency value.dependencies;
    fingerprint = value.fingerprint;
    provenance = some (proto_provenance value.provenance);
  }
