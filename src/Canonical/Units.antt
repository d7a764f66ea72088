-- ===== src/Canonical/Units.antt =====
-- Identities, source units, components and the project manifest.
use kide.Base.{ℕ, Text, text_eq, nat_eq, Eq, List, Option, Bool}
use native.Mathlib.Decide.{ℕ_discrete}

abbrev pub WorkspaceId : Type 0
WorkspaceId = Text

abbrev pub ComponentId : Type 0
ComponentId = Text

abbrev pub SourceUnitId : Type 0
SourceUnitId = Text

abbrev pub WorkspacePath : Type 0
WorkspacePath = Text

abbrev pub Fingerprint : Type 0
Fingerprint = Text

pub data Language : Type 0 where
  kotlin java rust type_script : Language
  other : Text → Language

language_dec : Discrete Language
language_dec = hlevel ℕ_discrete

instance unfoldable pub language_eq : Eq Language
unfolding language_dec
language_eq = record { dec = language_dec }

pub data BuildSystem : Type 0 where
  gradle maven cargo npm bazel filesystem : BuildSystem
  other : Text → BuildSystem

build_system_dec : Discrete BuildSystem
build_system_dec = hlevel ℕ_discrete

instance unfoldable pub build_system_eq : Eq BuildSystem
unfolding build_system_dec
build_system_eq = record { dec = build_system_dec }

pub data SourceOrigin : Type 0 where
  source generated dependency : SourceOrigin

source_origin_dec : Discrete SourceOrigin
source_origin_dec = hlevel

instance unfoldable pub source_origin_eq : Eq SourceOrigin
unfolding source_origin_dec
source_origin_eq = record { dec = source_origin_dec }

pub record Provenance : Type 0 where
  pub backend : Text
  pub backend_version : Text
  pub protocol_version : ℕ
  pub analysis_options : Fingerprint

provenance_dec : Discrete Provenance
provenance_dec = hlevel ℕ_discrete

instance unfoldable pub provenance_eq : Eq Provenance
unfolding provenance_dec
provenance_eq = record { dec = provenance_dec }

pub record SourceSet : Type 0 where
  pub name : Text
  pub source_roots : List WorkspacePath
  pub generated_roots : List WorkspacePath
  pub test : Bool

pub record Toolchain : Type 0 where
  pub jvm_version : Text
  pub build_tool_version : Text
  pub kotlin_version : Option Text

pub record Component : Type 0 where
  pub id : ComponentId
  pub name : Text
  pub build_system : BuildSystem
  pub root : WorkspacePath
  pub languages : List Language
  pub configuration : Fingerprint
  pub source_sets : List SourceSet
  pub classpath : List Fingerprint
  pub toolchain : Option Toolchain
  pub compiler_configuration : Option Fingerprint

pub data DependencyTarget : Type 0 where
  component : ComponentId → DependencyTarget
  artifact : Fingerprint → DependencyTarget

pub record DependencyEdge : Type 0 where
  pub from : ComponentId
  pub target : DependencyTarget
  pub scope : Text

pub record ProjectManifest : Type 0 where
  pub workspace : WorkspaceId
  pub root : WorkspacePath
  pub components : List Component
  pub dependencies : List DependencyEdge
  pub fingerprint : Fingerprint
  pub provenance : Provenance

pub record SourceUnit : Type 0 where
  pub id : SourceUnitId
  pub component : ComponentId
  pub path : WorkspacePath
  pub language : Language
  pub origin : SourceOrigin
  pub content : Fingerprint
  pub context : Fingerprint
