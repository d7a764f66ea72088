-- ===== src/Tests/Inventory.antt =====
-- Configuration inputs and their fingerprints.
use mathlib.Core.List.{Permᴰ}
use kide.Base.{ℕ, ◌≡◌, refl, Text, utf8, List, [], ◌∷◌, none, some}
use kide.DependencyIdentity.{ArtifactDescriptor}
use kide.InputInventory.{ConfigurationInput, ConfigurationInputReconciliation}
use kide.InputInventory.{reconcile_configuration_inputs, fingerprint_configuration_inputs}
use kide.InputInventory.Reconciled.{Reports, reconcile-Reports}
use kide.InputInventory.Fingerprints.{fingerprint_configuration_inputs-Perm}
use kide.Tests.Samples.{unit_b, descriptor}

abbrev old_input : ConfigurationInput
old_input = record { path = utf8 "pom.xml"; fingerprint = utf8 "f"; components = utf8 "b" ∷ [] }

abbrev new_input : ConfigurationInput
new_input = record { path = utf8 "pom.xml"; fingerprint = utf8 "f"; components = utf8 "c" ∷ [] }

abbrev identity_hex : List ℕ → Text
identity_hex bytes = bytes

reconcile-Reports_example :
    (r : ConfigurationInputReconciliation) × (reconcile_configuration_inputs
        (old_input ∷ [])
        (new_input ∷ [])
      ≡ some r)
    × Reports (old_input ∷ []) (new_input ∷ []) r
reconcile-Reports_example = reconcile-Reports (old_input ∷ []) (new_input ∷ [])

fingerprint_configuration_inputs-Perm_example :
    fingerprint_configuration_inputs identity_hex (old_input ∷ new_input ∷ [])
    ≡ fingerprint_configuration_inputs identity_hex (new_input ∷ old_input ∷ [])
fingerprint_configuration_inputs-Perm_example =
    fingerprint_configuration_inputs-Perm identity_hex (old_input ∷ new_input ∷ [])
      (new_input ∷ old_input ∷ []) (Permᴰ.swap refl refl)

abbrev other_descriptor : ArtifactDescriptor
other_descriptor = record {
  source_unit = unit_b;
  provenance = descriptor.provenance;
  resolved_identity = none;
  symbol_locators = [];
}
