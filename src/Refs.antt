-- ===== src/Refs.antt =====
-- packages/k8s-client/src/ref-namespace.ts and packages/operator/src/resolvers/object-ref.ts: in
-- which namespace a reference is looked up. An exception is the `err` of a result.
pub mod Isolation
use a5e.Base.{
  String, ◌<>◌, Bool, true, false, ◌&&◌, Option, none, some, List, not, ◌==◌, string_eq,
  if◌then◌else◌,
}
use a5e.Base.Result.{Result, ok, err, thrown, ◌>>=◌}
use a5e.Descriptors.{Scope, namespaced, cluster, Descriptor, descriptor_by_kind}

-- `ref ?? owner`
abbrev pub or_else {ℓ} : {A : Type ℓ} → Option A → Option A → Option A
or_else none fallback = fallback
or_else (some a) fallback = some a

cross_namespace_error : String → String → String
cross_namespace_error ref_namespace owner_namespace =
    "cross-namespace reference not allowed: namespace \""
    <> (ref_namespace <> ("\" referenced from namespace \"" <> (owner_namespace <> "\"")))

-- The guard of `resolveRefNamespace` over its two optional arguments.
check_namespace : Option String → Option String → Result (Option String)
unfolding cross_namespace_error
check_namespace (some ref) (some owner) =
    if not (ref == owner) then err (thrown (cross_namespace_error ref owner)) else ok (some ref)
check_namespace ref owner = ok (or_else ref owner)

-- `resolveRefNamespace`
unfoldable pub resolve_ref_namespace :
    Scope → Option String → Option String → Result (Option String)
unfolding check_namespace
resolve_ref_namespace cluster ref_namespace owner_namespace = ok none
resolve_ref_namespace namespaced ref_namespace owner_namespace =
    check_namespace ref_namespace owner_namespace

pub record Ref : Type 0 where
  pub kind : String
  pub name : String
  pub namespace : Option String

-- `resolveRef`, over the client's `get` by descriptor, name and namespace.
module _ {ℓ} {Object : Type ℓ} (get : Descriptor → String → Option String → Result Object) where
  find_in : Ref → Option String → Option Descriptor → Result Object
  find_in ref referencing_namespace none = err (thrown ("unknown ref kind: " <> ref.kind))
  find_in ref referencing_namespace (some descriptor) =
      resolve_ref_namespace descriptor.scope ref.namespace referencing_namespace >>= λ namespace.
      get descriptor ref.name namespace

  unfoldable pub resolve_ref : Ref → Option String → Result Object
  unfolding find_in
  resolve_ref ref referencing_namespace =
      find_in ref referencing_namespace (descriptor_by_kind ref.kind)
