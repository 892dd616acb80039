-- ===== src/Refs/Isolation.antt =====
-- `resolveRef` and `resolveRefNamespace`: the namespace of a reference, by the scope of its owner.
use a5e.Base.{String, ◌≡◌, ◌↔◌, ◌⊎◌, refl, Option, none, some, arith, string_eq, ==_iff, inl, inr}
use a5e.Base.Result.{Result, ok, ◌>>=◌, >>=-eq-ok}
use a5e.Descriptors.{Scope, namespaced, cluster, Descriptor, descriptor_by_kind}
use a5e.Refs.{Ref, resolve_ref_namespace, find_in, resolve_ref}

-- For a reference to a namespaced kind from a namespaced owner: the resolution succeeds exactly
-- when the reference names no namespace or the owner's own, and then yields the owner's namespace.
pub resolve_ref_namespace-own :
    (ref : Option String) (owner : String) (found : Option String)
    → (resolve_ref_namespace namespaced ref (some owner) ≡ ok found)
      ↔ ((found ≡ some owner) × ((ref ≡ none) ⊎ (ref ≡ some owner)))
unfolding resolve_ref_namespace
resolve_ref_namespace-own none owner found = (λ h. ground arith, λ h. ground arith)
resolve_ref_namespace-own (some r) owner found =
    (λ h. ground (arith, ==_iff r owner), λ h. ground (arith, ==_iff r owner))

module _ {ℓ} {Object : Type ℓ} (get : Descriptor → String → Option String → Result Object) where
  -- How an object that a namespaced object refers to was read.
  abbrev OwnRead : Ref → String → Object → Descriptor → Type ℓ
  OwnRead ref owner object d =
      (d.scope ≡ cluster) × (get d ref.name none ≡ ok object)
      ⊎ (d.scope ≡ namespaced) × (get d ref.name (some owner) ≡ ok object)

  scope_cases :
      (ref : Ref) (owner : String) (object : Object) (d : Descriptor) (scope : Scope)
      → d.scope ≡ scope
      → (resolve_ref_namespace scope ref.namespace (some owner) >>= λ ns. get d ref.name ns)
        ≡ ok object
      → OwnRead ref owner object d
  unfolding resolve_ref_namespace
  scope_cases ref owner object d cluster e h = inl (e, h)
  scope_cases ref owner object d namespaced e h =
      let (ns, same, read) = >>=-eq-ok _ _ h in
      inr (e, rw ((resolve_ref_namespace-own ref.namespace owner ns).0 same).0 at read)

  find_in-own :
      (ref : Ref) (owner : String) (object : Object) (found : Option Descriptor)
      → find_in get ref (some owner) found ≡ ok object
      → (d : Descriptor) × (found ≡ some d) × OwnRead ref owner object d
  unfolding find_in
  find_in-own ref owner object none h = cc
  find_in-own ref owner object (some d) h = (d, refl, scope_cases ref owner object d d.scope refl h)

  -- Whatever a namespaced object refers to, the object that the resolution returns was read by its
  -- name either as a cluster-scoped kind with no namespace, or as a namespaced kind in the
  -- referencing object's own namespace.
  pub resolve_ref-own :
      (ref : Ref) (owner : String) (object : Object)
      → resolve_ref get ref (some owner) ≡ ok object
      → (d : Descriptor) × (descriptor_by_kind ref.kind ≡ some d)
        × ((d.scope ≡ cluster) × (get d ref.name none ≡ ok object)
            ⊎ (d.scope ≡ namespaced) × (get d ref.name (some owner) ≡ ok object))
  unfolding resolve_ref
  resolve_ref-own ref owner object h = find_in-own ref owner object (descriptor_by_kind ref.kind) h
