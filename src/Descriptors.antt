-- ===== src/Descriptors.antt =====
-- packages/schemas/src/crd-meta.ts and packages/k8s-client/src/crdRegistry.ts: the registry of
-- resource kinds and the API paths built from it. The Zod schemas and the printer columns of a
-- descriptor only serve to generate manifests and are left out.
pub mod Lookups
use a5e.Base.{
  String, ◌<>◌, Bool, Option, none, some, List, [], ◌∷◌, ◌==◌, string_eq, find, if◌then◌else◌,
}
use a5e.Base.Result.{Result, ok, err, thrown}

pub data Scope : Type 0 where
  namespaced cluster : Scope

pub record Descriptor : Type 0 where
  pub kind : String
  pub plural : String
  pub singular : String
  pub scope : Scope
  pub paired_with : Option String

abbrev descriptor : String → String → String → Scope → Option String → Descriptor
descriptor kind plural singular scope paired_with = record {
  kind = kind;
  plural = plural;
  singular = singular;
  scope = scope;
  paired_with = paired_with;
}

abbrev pub resource_descriptors : List Descriptor
resource_descriptors =
    descriptor "AnsibleHost" "ansiblehosts" "ansiblehost" namespaced none
    ∷ descriptor "ClusterAnsibleHost" "clusteransiblehosts" "clusteransiblehost" cluster
        (some "AnsibleHost")
    ∷ descriptor "AnsibleInventory" "ansibleinventories" "ansibleinventory" namespaced none
    ∷ descriptor "ClusterAnsibleInventory" "clusteransibleinventories" "clusteransibleinventory"
        cluster (some "AnsibleInventory")
    ∷ descriptor "AnsiblePlaybook" "ansibleplaybooks" "ansibleplaybook" namespaced none
    ∷ descriptor "ClusterAnsiblePlaybook" "clusteransibleplaybooks" "clusteransibleplaybook" cluster
        (some "AnsiblePlaybook")
    ∷ descriptor "AnsibleSSHKey" "ansiblesshkeys" "ansiblesshkey" namespaced none
    ∷ descriptor "ClusterAnsibleSSHKey" "clusteransiblesshkeys" "clusteransiblesshkey" cluster
        (some "AnsibleSSHKey")
    ∷ descriptor "AnsibleRun" "ansibleruns" "ansiblerun" namespaced none
    ∷ descriptor "AnsibleJob" "ansiblejobs" "ansiblejob" namespaced none
    ∷ descriptor "ChangeRequest" "changerequests" "changerequest" cluster none
    ∷ descriptor "Group" "groups" "group" cluster none
    ∷ descriptor "User" "users" "user" cluster none
    ∷ []

-- `RESOURCE_DESCRIPTORS_BY_KIND[kind]`
unfoldable pub descriptor_by_kind : String → Option Descriptor
descriptor_by_kind kind = find (λ d. d.kind == kind) resource_descriptors

-- `descriptorForPlural`
unfoldable pub descriptor_for_plural : String → Result Descriptor
descriptor_for_plural plural = elim (find (λ d. d.plural == plural) resource_descriptors) [
  | none ↦ err (thrown ("unknown resource plural: " <> plural))
  | some found ↦ ok found
]

abbrev api_root : String
api_root = "/apis/a5e.k8s.rocks/v1alpha1"

abbrev namespace_missing : Descriptor → Result String
namespace_missing d = err (thrown (d.kind <> " is namespaced — namespace is required"))

-- `resourcePath`; an empty namespace is refused like an absent one.
path_in : Descriptor → Option String → Scope → Result String
path_in d namespace cluster = ok (api_root <> ("/" <> d.plural))
path_in d none namespaced = namespace_missing d
path_in d (some namespace) namespaced =
    if namespace == ""
    then namespace_missing d
    else ok (api_root <> ("/namespaces/" <> (namespace <> ("/" <> d.plural))))

unfoldable pub resource_path : Descriptor → Option String → Result String
unfolding path_in
resource_path d namespace = path_in d namespace d.scope

-- `allNamespacesPath`
unfoldable pub all_namespaces_path : Descriptor → Result String
all_namespaces_path d = elim d.scope [
  | namespaced ↦ ok (api_root <> ("/" <> d.plural))
  | cluster ↦ err (thrown (d.kind <> " is not namespaced — use resourcePath instead"))
]
