-- ===== src/Inventory/Jumps/Routes.antt =====
-- What the chain of hops is.
use a5e.Base.{
  String, ℕ, zero, suc, ◌≡◌, ◌≢◌, refl, ap, Option, none, some, List, [], ◌∷◌, ◌++◌, ◌==◌,
  string_eq, ==_iff, arith, Bool-cases, inl, inr, ◌⊎◌, ◌∙◌, subst,
}
use a5e.Base.Result.{Result, ok, err}
use a5e.Descriptors.{Descriptor}
use a5e.Labels.{includes}
use a5e.Refs.{Ref}
use a5e.Inventory.{JumpHost, JumpChainHop}
use a5e.Inventory.Jumps.{
  HostObject, ChainHost, chain_key, as_resolved, hop_to, Resolution, add_hop, jump_object,
  chain_found, chain_ref, chain_address, chain_jump, resolve_jump_chain,
}

-- No address to jump to.
abbrev pub Unaddressed : JumpHost → Type 0
Unaddressed jump = (jump.address ≡ none) ⊎ (jump.address ≡ some "")

module _ (get : Descriptor → String → Option String → Result HostObject) where
  -- The hops to a host, the outermost first: none without a jump host, one for an address, and for
  -- a reference the hops to the host that it names, and then the hop to that host.
  pub data Route : ChainHost → List JumpChainHop → Type 0 where
    unjumped : (host : ChainHost) → host.spec.jump_host ≡ none → Route host []
    nowhere :
        (host : ChainHost) (jump : JumpHost)
        → host.spec.jump_host ≡ some jump
        → Unaddressed jump
        → jump.host_ref ≡ none
        → Route host []
    addressed :
        (host : ChainHost) (jump : JumpHost) (address : String)
        → host.spec.jump_host ≡ some jump
        → jump.address ≡ some address
        → address ≢ ""
        → Route host (record { address = address; user = jump.user; port = jump.port } ∷ [])
    through :
        (host : ChainHost) (jump : JumpHost) (ref : Ref) (obj : HostObject)
        (upstream : List JumpChainHop)
        → host.spec.jump_host ≡ some jump
        → Unaddressed jump
        → jump.host_ref ≡ some ref
        → jump_object get host ref ≡ ok obj
        → Route (as_resolved ref obj) upstream
        → Route host (upstream ++ (hop_to obj ∷ []))

  -- A resolution that has found hops has found the route.
  abbrev IsRoute : ChainHost → Resolution → Type 0
  IsRoute host none = Unit
  IsRoute host (some (err e)) = Unit
  IsRoute host (some (ok hops)) = Route host hops

  abbrev NextRoute : (ChainHost → List String → Resolution) → Type 0
  NextRoute next = (h : ChainHost) (v : List String) → IsRoute h (next h v)

  add_hop-IsRoute :
      (host : ChainHost) (jump : JumpHost) (ref : Ref) (obj : HostObject) (r : Resolution)
      → host.spec.jump_host ≡ some jump
      → Unaddressed jump
      → jump.host_ref ≡ some ref
      → jump_object get host ref ≡ ok obj
      → IsRoute (as_resolved ref obj) r
      → IsRoute host (add_hop (hop_to obj) r)
  unfolding add_hop
  add_hop-IsRoute host jump ref obj none j u f g r = tt
  add_hop-IsRoute host jump ref obj (some (err e)) j u f g r = tt
  add_hop-IsRoute host jump ref obj (some (ok upstream)) j u f g r =
      through host jump ref obj upstream j u f g r

  chain_found-IsRoute :
      (next : ChainHost → List String → Resolution) (host : ChainHost) (visited : List String)
      (jump : JumpHost) (ref : Ref) (r : Result HostObject)
      → NextRoute next
      → host.spec.jump_host ≡ some jump
      → Unaddressed jump
      → jump.host_ref ≡ some ref
      → jump_object get host ref ≡ r
      → IsRoute host (chain_found get next visited ref r)
  unfolding chain_found
  chain_found-IsRoute next host visited jump ref (err e) k j u f g = tt
  chain_found-IsRoute next host visited jump ref (ok obj) k j u f g =
      add_hop-IsRoute host jump ref obj _ j u f g (k (as_resolved ref obj) visited)

  chain_ref-IsRoute :
      (next : ChainHost → List String → Resolution) (host : ChainHost) (visited : List String)
      (jump : JumpHost) (ref : Option Ref)
      → NextRoute next
      → host.spec.jump_host ≡ some jump
      → Unaddressed jump
      → jump.host_ref ≡ ref
      → IsRoute host (chain_ref get next host visited ref)
  unfolding chain_ref
  chain_ref-IsRoute next host visited jump none k j u f = nowhere host jump j u f
  chain_ref-IsRoute next host visited jump (some ref) k j u f =
      chain_found-IsRoute next host visited jump ref (jump_object get host ref) k j u f refl

  chain_address-IsRoute :
      (next : ChainHost → List String → Resolution) (host : ChainHost) (visited : List String)
      (jump : JumpHost) (address : Option String)
      → NextRoute next
      → host.spec.jump_host ≡ some jump
      → jump.address ≡ address
      → IsRoute host (chain_address get next host visited jump address)
  unfolding chain_address
  chain_address-IsRoute next host visited jump none k j a =
      chain_ref-IsRoute next host visited jump jump.host_ref k j (inl a) refl
  chain_address-IsRoute next host visited jump (some address) k j a =
      elim (Bool-cases (address == "")) [
        | inl t ↦ rw t (
            chain_ref-IsRoute next host visited jump jump.host_ref k j
              (inr (a ∙ ap some ((==_iff address "").0 t))) refl)
        | inr f ↦
            rw f (addressed host jump address j a (λ e. ground (arith, (==_iff address "").1 e)))
      ]

  chain_jump-IsRoute :
      (next : ChainHost → List String → Resolution) (host : ChainHost) (visited : List String)
      (jump : Option JumpHost)
      → NextRoute next
      → host.spec.jump_host ≡ jump
      → IsRoute host (chain_jump get next host visited jump)
  unfolding chain_jump
  chain_jump-IsRoute next host visited none k j = unjumped host j
  chain_jump-IsRoute next host visited (some jump) k j =
      elim (Bool-cases (includes visited (chain_key host))) [
        | inl t ↦ rw t tt
        | inr f ↦ rw f (
            chain_address-IsRoute next host (visited ++ (chain_key host ∷ [])) jump jump.address k j
              refl)
      ]

  chain-IsRoute :
      (fuel : ℕ) (host : ChainHost) (visited : List String)
      → IsRoute host (resolve_jump_chain get fuel host visited)
  unfolding resolve_jump_chain
  chain-IsRoute zero host visited = tt
  chain-IsRoute (suc fuel) host visited =
      chain_jump-IsRoute (λ h v. resolve_jump_chain get fuel h v) host visited host.spec.jump_host
        (λ h v. chain-IsRoute fuel h v) refl

  -- The hops that `resolveJumpChain` returns are the route to the host, whatever was visited before.
  pub resolve_jump_chain-Route :
      (fuel : ℕ) (host : ChainHost) (visited : List String) (hops : List JumpChainHop)
      → resolve_jump_chain get fuel host visited ≡ some (ok hops)
      → Route host hops
  resolve_jump_chain-Route fuel host visited hops e =
      subst (IsRoute host) e (chain-IsRoute fuel host visited)
