-- ===== src/WorkerRegistry/Negotiated.antt =====
-- `negotiate_query_capabilities` and `query_capability_support`, with `PackageCapability` of
-- crates/kide-core/src/query_package.rs.
use kide.Base.{
  ◌≡◌, refl, ℕ, nat_eq, nat_ord, Text, text_eq, text_ord, pair_ord, List, [], ◌∷◌, ◌++◌, map,
}
use kide.Base.{
  Bool, true, false, not, ◌==◌, ◌&&◌, if◌then◌else◌, arith, any, sort, sorted_insert, dedup, ◌∙◌,
  member, Ord, Eq,
}
use kide.Protocol.{SemanticQueryCapability}
use kide.WorkerRegistry.{DiscoveredWorker, sort_by_key}

pub record PackageCapability : Type 0 where
  pub name : Text
  pub version : ℕ
  pub required : Bool

pub data QueryCapabilityStatus : Type 0 where
  supported missing incompatible_version : QueryCapabilityStatus

pub data QueryCapabilitySupport : Type 0 where
  complete partial unsupported : QueryCapabilitySupport

status_dec : Discrete QueryCapabilityStatus
status_dec = hlevel

instance unfoldable pub status_eq : Eq QueryCapabilityStatus
unfolding status_dec
status_eq = record { dec = status_dec }

pub record QueryCapabilityNegotiation : Type 0 where
  pub name : Text
  pub version : ℕ
  pub required : Bool
  pub status : QueryCapabilityStatus
  pub providers : List Text
  pub available_versions : List ℕ

-- `false` before `true`
unfoldable pub flag : Bool → ℕ
flag false = 0
flag true = 1

abbrev pub requirement_key : PackageCapability → Text × (ℕ × ℕ)
requirement_key requirement = (requirement.name, (requirement.version, flag requirement.required))

-- The versions of one worker's capabilities of the name.
unfoldable pub versions_of : Text → List SemanticQueryCapability → List ℕ
versions_of name [] = []
versions_of name (capability ∷ capabilities) =
    let rest = versions_of name capabilities in
    if capability.name == name then capability.version ∷ rest else rest

unfoldable pub all_versions : Text → List DiscoveredWorker → List ℕ
unfolding versions_of
all_versions name [] = []
all_versions name (worker ∷ workers) =
    versions_of name worker.capabilities.semantic_query_capabilities ++ all_versions name workers

-- The names of the workers that offer the version.
unfoldable pub provider_names : Text → ℕ → List DiscoveredWorker → List Text
unfolding versions_of
provider_names name version [] = []
provider_names name version (worker ∷ workers) =
    let rest = provider_names name version workers in
    if member version (versions_of name worker.capabilities.semantic_query_capabilities)
    then worker.installation.name ∷ rest
    else rest

unfoldable pub status_of : List Text → List ℕ → QueryCapabilityStatus
status_of (provider ∷ providers) versions = supported
status_of [] [] = missing
status_of [] (version ∷ versions) = incompatible_version

unfoldable pub negotiate : List DiscoveredWorker → PackageCapability → QueryCapabilityNegotiation
unfolding all_versions provider_names status_of
negotiate workers requirement =
    let providers = dedup (sort (provider_names requirement.name requirement.version workers)) in
    let available_versions = dedup (sort (all_versions requirement.name workers)) in
    record {
      name = requirement.name;
      version = requirement.version;
      required = requirement.required;
      status = status_of providers available_versions;
      providers = providers;
      available_versions = available_versions;
    }

unfoldable pub negotiate_query_capabilities :
    List PackageCapability → List DiscoveredWorker → List QueryCapabilityNegotiation
unfolding negotiate sort_by_key flag
negotiate_query_capabilities requirements workers =
    map (negotiate workers) (sort_by_key requirement_key requirements)

unfoldable pub query_capability_support : List QueryCapabilityNegotiation → QueryCapabilitySupport
query_capability_support negotiations =
    if any (λ item. item.required && not (item.status == supported)) negotiations
    then unsupported
    else if any (λ item. not (item.status == supported)) negotiations
    then partial
    else complete

-- A worker offers the version of the capability.
abbrev pub offers : Text → ℕ → DiscoveredWorker → Bool
offers name version worker =
    any (λ c. (c.name == name) && (c.version == version))
      worker.capabilities.semantic_query_capabilities

-- A worker offers some version of the capability.
abbrev pub names : Text → DiscoveredWorker → Bool
names name worker = any (λ c. c.name == name) worker.capabilities.semantic_query_capabilities

abbrev is_nil {ℓ} : {A : Type ℓ} → List A → Bool
is_nil [] = true
is_nil (x ∷ xs) = false

module _ {ℓ} {A : Type ℓ} ⦃o : Ord A⦄ where
  nil-sorted_insert : (x : A) (ys : List A) → is_nil (sorted_insert x ys) ≡ false
  unfolding sorted_insert
  nil-sorted_insert x [] = refl
  nil-sorted_insert x (y ∷ ys) = ground arith

  nil-dedup : (xs : List A) → is_nil (dedup xs) ≡ is_nil xs
  unfolding dedup
  nil-dedup [] = refl
  nil-dedup (x ∷ xs) = refl

  nil-dedup-sort : (xs : List A) → is_nil (dedup (sort xs)) ≡ is_nil xs
  unfolding sort
  nil-dedup-sort [] = nil-dedup []
  nil-dedup-sort (x ∷ xs) = nil-dedup (sort (x ∷ xs)) ∙ nil-sorted_insert x (sort xs)

member-versions_of :
    (name : Text) (version : ℕ) (cs : List SemanticQueryCapability)
    → member version (versions_of name cs)
      ≡ any (λ c. (c.name == name) && (c.version == version)) cs
unfolding versions_of
member-versions_of name version [] = refl
member-versions_of name version (c ∷ cs) = ground (
  arith,
  member-versions_of name version cs,
  nat_ord.eq_same version c.version,
  nat_ord.cmp_same version,
)

nil-versions_of :
    (name : Text) (cs : List SemanticQueryCapability)
    → is_nil (versions_of name cs) ≡ not (any (λ c. c.name == name) cs)
unfolding versions_of
nil-versions_of name [] = refl
nil-versions_of name (c ∷ cs) = ground (arith, nil-versions_of name cs)

nil-append : {A : Type 0} (xs ys : List A) → is_nil (xs ++ ys) ≡ (is_nil xs && is_nil ys)
nil-append [] ys = refl
nil-append (x ∷ xs) ys = refl

nil-all_versions :
    (name : Text) (workers : List DiscoveredWorker)
    → is_nil (all_versions name workers) ≡ not (any (names name) workers)
unfolding all_versions
nil-all_versions name [] = refl
nil-all_versions name (w ∷ workers) = ground (
  arith,
  nil-append (versions_of name w.capabilities.semantic_query_capabilities)
      (all_versions name workers),
  nil-versions_of name w.capabilities.semantic_query_capabilities,
  nil-all_versions name workers,
)

nil-provider_names :
    (name : Text) (version : ℕ) (workers : List DiscoveredWorker)
    → is_nil (provider_names name version workers) ≡ not (any (offers name version) workers)
unfolding provider_names
nil-provider_names name version [] = refl
nil-provider_names name version (w ∷ workers) = ground (
  arith,
  member-versions_of name version w.capabilities.semantic_query_capabilities,
  nil-provider_names name version workers,
)

status_of-nil :
    (providers : List Text) (versions : List ℕ)
    → status_of providers versions ≡ (
        if not (is_nil providers)
        then supported
        else if is_nil versions
        then missing
        else incompatible_version)
unfolding status_of
status_of-nil (x ∷ providers) versions = refl
status_of-nil [] [] = refl
status_of-nil [] (v ∷ versions) = refl

-- A required capability is supported if some worker offers its very version; otherwise it is
-- incompatible if some worker offers another version of it, and missing if none offers any.
pub negotiate_status :
    (requirement : PackageCapability) (workers : List DiscoveredWorker)
    → (negotiate workers requirement).status ≡ (
        if any (offers requirement.name requirement.version) workers
        then supported
        else if any (names requirement.name) workers
        then incompatible_version
        else missing)
unfolding negotiate
negotiate_status requirement workers =
    let providers = provider_names requirement.name requirement.version workers in
    let versions = all_versions requirement.name workers in
    ground (
      arith,
      status_of-nil (dedup (sort providers)) (dedup (sort versions)),
      nil-dedup-sort providers,
      nil-dedup-sort versions,
      nil-provider_names requirement.name requirement.version workers,
      nil-all_versions requirement.name workers,
    )
