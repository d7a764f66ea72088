-- ===== src/Tests/Samples.antt =====
-- The values that the runs share.
use kide.Base.{utf8, [], ◌∷◌, none, Bool, true}
use kide.Canonical.{SourceUnit, Provenance, kotlin, source, gradle, Component, ProjectManifest}
use kide.DependencyIdentity.{ArtifactDescriptor, ArtifactBlobKey}
use kide.Freshness.{AnalysisInput}

abbrev pub unit_a : SourceUnit
unit_a = record {
  id = utf8 "a";
  component = utf8 "app";
  path = utf8 "A.kt";
  language = kotlin;
  origin = source;
  content = utf8 "c1";
  context = utf8 "x1";
}

abbrev pub unit_b : SourceUnit
unit_b = record {
  id = utf8 "b";
  component = utf8 "app";
  path = utf8 "B.kt";
  language = kotlin;
  origin = source;
  content = utf8 "c2";
  context = utf8 "x1";
}

abbrev pub provenance : Provenance
provenance = record {
  backend = utf8 "k2";
  backend_version = utf8 "1";
  protocol_version = 3;
  analysis_options = utf8 "o";
}

abbrev pub input_of : SourceUnit → AnalysisInput
input_of unit = record {
  source_unit = unit;
  provenance = provenance;
  public_api_fingerprint = none;
}

abbrev pub descriptor : ArtifactDescriptor
descriptor = record {
  source_unit = unit_a;
  provenance = provenance;
  resolved_identity = none;
  symbol_locators = [];
}

abbrev pub always : ArtifactBlobKey → Bool
always key = true

abbrev pub app : Component
app = record {
  id = utf8 "app";
  name = utf8 "application";
  build_system = gradle;
  root = utf8 ".";
  languages = kotlin ∷ [];
  configuration = utf8 "x1";
  source_sets = [];
  classpath = [];
  toolchain = none;
  compiler_configuration = none;
}

abbrev pub manifest : ProjectManifest
manifest = record {
  workspace = utf8 "w";
  root = utf8 ".";
  components = app ∷ [];
  dependencies = [];
  fingerprint = utf8 "m";
  provenance = provenance;
}
