-- ===== src/InputInventory/Fingerprints.antt =====
-- The fingerprint of a set of inputs does not depend on the order in which they are listed.
use mathlib.Core.List.{Permᴰ}
use kide.Base.{
  ◌≡◌, refl, ap, ◌∙◌, ℕ, Text, text_ord, Ord, List, [], ◌∷◌, map, arith, sort, sorted_insert,
}
use kide.Canonical.{SourceUnit}
use kide.DependencyIdentity.{ArtifactDescriptor}
use kide.InputInventory.{ConfigurationInput, fingerprint_entries, fingerprint_configuration_inputs}
use kide.InputInventory.{fingerprint_source_inputs, fingerprint_artifact_catalog}
use kide.InputInventory.{configuration_entry, source_entry, artifact_entry}

module _ {ℓ} {A : Type ℓ} ⦃o : Ord A⦄ where
  sorted_insert-swap :
      (x y : A) (zs : List A)
      → sorted_insert x (sorted_insert y zs) ≡ sorted_insert y (sorted_insert x zs)
  unfolding sorted_insert
  sorted_insert-swap x y [] =
      ground (arith, o.eq_same x y, o.lt_swap x y, o.gt_swap x y, o.cmp_same x)
  sorted_insert-swap x y (z ∷ zs) = ground (
    arith,
    sorted_insert-swap x y zs,
    o.eq_same x y,
    o.eq_same x z,
    o.eq_same y z,
    o.lt_swap x y,
    o.gt_swap x y,
    o.lt_swap x z,
    o.gt_swap x z,
    o.lt_swap y z,
    o.gt_swap y z,
    o.lt_chain x y z,
    o.lt_chain y x z,
    o.lt_chain x z y,
    o.lt_chain y z x,
    o.lt_chain z x y,
    o.lt_chain z y x,
    o.cmp_same x,
    o.cmp_same y,
    o.cmp_same z,
  )

  sort-Perm : {xs ys : List A} → Permᴰ xs ys → sort xs ≡ sort ys
  unfolding sort
  sort-Perm Permᴰ.nil = refl
  sort-Perm (Permᴰ.cons {a} {b} e p) = rw (e, sort-Perm p) refl
  sort-Perm (Permᴰ.swap {a} {b} {a'} {b'} {l} e f) = rw (e, f) (sorted_insert-swap b' a' (sort l))
  sort-Perm (Permᴰ.trans p q) = sort-Perm p ∙ sort-Perm q

module _ {ℓ κ} {A : Type ℓ} {B : Type κ} (f : A → B) where
  map-Perm : {xs ys : List A} → Permᴰ xs ys → Permᴰ (map f xs) (map f ys)
  map-Perm Permᴰ.nil = Permᴰ.nil
  map-Perm (Permᴰ.cons e p) = Permᴰ.cons (ap f e) (map-Perm p)
  map-Perm (Permᴰ.swap e g) = Permᴰ.swap (ap f e) (ap f g)
  map-Perm (Permᴰ.trans p q) = Permᴰ.trans (map-Perm p) (map-Perm q)

module _ (sha256_hex : List ℕ → Text) where
  -- Configuration inputs in another order have the same fingerprint.
  pub fingerprint_configuration_inputs-Perm :
      (xs ys : List ConfigurationInput)
      → Permᴰ xs ys
      → fingerprint_configuration_inputs sha256_hex xs
        ≡ fingerprint_configuration_inputs sha256_hex ys
  unfolding fingerprint_configuration_inputs
  fingerprint_configuration_inputs-Perm xs ys p =
      ap (fingerprint_entries sha256_hex) (sort-Perm (map-Perm configuration_entry p))

  -- Source units in another order have the same fingerprint.
  pub fingerprint_source_inputs-Perm :
      (xs ys : List SourceUnit)
      → Permᴰ xs ys
      → fingerprint_source_inputs sha256_hex xs ≡ fingerprint_source_inputs sha256_hex ys
  unfolding fingerprint_source_inputs
  fingerprint_source_inputs-Perm xs ys p =
      ap (fingerprint_entries sha256_hex) (sort-Perm (map-Perm source_entry p))

  -- Descriptors in another order have the same catalog fingerprint.
  pub fingerprint_artifact_catalog-Perm :
      (xs ys : List ArtifactDescriptor)
      → Permᴰ xs ys
      → fingerprint_artifact_catalog sha256_hex xs ≡ fingerprint_artifact_catalog sha256_hex ys
  unfolding fingerprint_artifact_catalog
  fingerprint_artifact_catalog-Perm xs ys p =
      ap (fingerprint_entries sha256_hex) (sort-Perm (map-Perm artifact_entry p))
