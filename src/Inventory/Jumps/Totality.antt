-- ===== src/Inventory/Jumps/Totality.antt =====
-- The recursion of `resolveJumpChain` over finitely many hosts, and its end.
use mathlib.Core.Option.{some-injective}
use a5e.Base.{
  String, ℕ, zero, suc, ◌≤◌, ◌<◌, ◌≡◌, refl, sym, ap, ◌∙◌, Bool, true, false, not, Option, none,
  some, List, [], ◌∷◌, ◌++◌, arith, ◌==◌, string_eq, ==_iff, if◌then◌else◌, Bool-cases, inl, inr,
  length, tally, find, In, Memᴰ, subst,
}
use a5e.Base.Result.{Result, ok, err, >>=-eq-ok}
use a5e.Descriptors.{Descriptor, descriptor_by_kind, resource_descriptors}
use a5e.Labels.{includes}
use a5e.Refs.{Ref, resolve_ref_namespace}
use a5e.Inventory.{JumpHost, JumpChainHop, ref_key}
use a5e.Inventory.Jumps.{
  HostObject, ChainHost, chain_key, as_resolved, hop_to, Resolution, add_hop, find_host,
  jump_object, chain_found, chain_ref, chain_address, chain_jump, resolve_jump_chain,
}

abbrev unvisited : List String → String → Bool
unvisited visited key = not (includes visited key)

pub includes-append :
    (visited : List String) (key k : String)
    → includes (visited ++ (key ∷ [])) k ≡ (if key == k then true else includes visited k)
unfolding includes
includes-append [] key k = refl
includes-append (v ∷ visited) key k = ground (arith, includes-append visited key k)

unvisited_le :
    (visited : List String) (key : String) (keys : List String)
    → tally (unvisited (visited ++ (key ∷ []))) keys ≤ tally (unvisited visited) keys
unvisited_le visited key [] = omega arith
unvisited_le visited key (k ∷ keys) =
    ground (arith, includes-append visited key k, unvisited_le visited key keys)

-- One key less is left after a visit.
unvisited_lt :
    (visited : List String) (key : String) (keys : List String)
    → In key keys
    → includes visited key ≡ false
    → tally (unvisited (visited ++ (key ∷ []))) keys < tally (unvisited visited) keys
unvisited_lt visited key [] m new = elim m [ ]
unvisited_lt visited key (k ∷ keys) (Memᴰ.head e) new =
    ground (arith, includes-append visited key k, unvisited_le visited key keys, ==_iff key k, e)
unvisited_lt visited key (k ∷ keys) (Memᴰ.tail m) new =
    ground (arith, includes-append visited key k, unvisited_lt visited key keys m new)

unvisited_all : (keys : List String) → tally (unvisited []) keys ≤ length keys
unfolding includes
unvisited_all [] = omega arith
unvisited_all (k ∷ keys) = omega (arith, unvisited_all keys)

found-kind :
    (kind : String) (ds : List Descriptor) (d : Descriptor)
    → find (λ d. d.kind == kind) ds ≡ some d
    → d.kind ≡ kind
found-kind kind [] d e = cc
found-kind kind (x ∷ ds) d e = elim (Bool-cases (x.kind == kind)) [
  | inl t ↦ ap (λ y. y.kind) (sym (some-injective x d (rw t at e))) ∙ (==_iff x.kind kind).0 t
  | inr f ↦ found-kind kind ds d (rw f at e)
]

abbrev pub Returns : Resolution → Type 0
Returns r = (result : Result (List JumpChainHop)) × (r ≡ some result)

add_hop-Returns : (hop : JumpChainHop) (r : Resolution) → Returns r → Returns (add_hop hop r)
unfolding add_hop
add_hop-Returns hop none (result, e) = cc
add_hop-Returns hop (some (err failure)) h = (err failure, refl)
add_hop-Returns hop (some (ok upstream)) h = (ok (upstream ++ (hop ∷ [])), refl)

module _ (get : Descriptor → String → Option String → Result HostObject) (keys : List String) where
  -- The keys of all hosts that the client may return.
  abbrev pub Lists : Type 0
  Lists =
      (d : Descriptor) (name : String) (namespace : Option String) (obj : HostObject)
      → get d name namespace ≡ ok obj
      → In (ref_key d.kind obj.namespace obj.name) keys

  find_host-In :
      (host : ChainHost) (ref : Ref) (found : Option Descriptor) (obj : HostObject)
      → Lists
      → ((d : Descriptor) → found ≡ some d → d.kind ≡ ref.kind)
      → find_host get host ref found ≡ ok obj
      → In (ref_key ref.kind obj.namespace obj.name) keys
  unfolding find_host
  find_host-In host ref none obj lists named e = cc
  find_host-In host ref (some d) obj lists named e =
      let (namespace, _, got) =
        >>=-eq-ok (resolve_ref_namespace d.scope ref.namespace host.namespace)
          (λ ns. get d ref.name ns) e in
      subst (λ kind. In (ref_key kind obj.namespace obj.name) keys) (named d refl)
        (lists d ref.name namespace obj got)

  jump_object-In :
      (host : ChainHost) (ref : Ref) (obj : HostObject)
      → Lists
      → jump_object get host ref ≡ ok obj
      → In (chain_key (as_resolved ref obj)) keys
  unfolding jump_object chain_key descriptor_by_kind
  jump_object-In host ref obj lists e =
      find_host-In host ref (descriptor_by_kind ref.kind) obj lists
        (λ d f. found-kind ref.kind resource_descriptors d f) e

  -- The recursive call returns for the hosts that may be found.
  abbrev NextReturns : (ChainHost → List String → Resolution) → List String → Type 0
  NextReturns next visited = (h : ChainHost) → In (chain_key h) keys → Returns (next h visited)

  chain_found-Returns :
      (next : ChainHost → List String → Resolution) (visited : List String) (host : ChainHost)
      (ref : Ref) (r : Result HostObject)
      → Lists
      → jump_object get host ref ≡ r
      → NextReturns next visited
      → Returns (chain_found get next visited ref r)
  unfolding chain_found
  chain_found-Returns next visited host ref (err e) lists f k = (err e, refl)
  chain_found-Returns next visited host ref (ok obj) lists f k =
      add_hop-Returns (hop_to obj) _ (k (as_resolved ref obj) (jump_object-In host ref obj lists f))

  chain_ref-Returns :
      (next : ChainHost → List String → Resolution) (host : ChainHost) (visited : List String)
      (ref : Option Ref)
      → Lists
      → NextReturns next visited
      → Returns (chain_ref get next host visited ref)
  unfolding chain_ref
  chain_ref-Returns next host visited none lists k = (ok [], refl)
  chain_ref-Returns next host visited (some ref) lists k =
      chain_found-Returns next visited host ref (jump_object get host ref) lists refl k

  chain_address-Returns :
      (next : ChainHost → List String → Resolution) (host : ChainHost) (visited : List String)
      (jump : JumpHost) (address : Option String)
      → Lists
      → NextReturns next visited
      → Returns (chain_address get next host visited jump address)
  unfolding chain_address
  chain_address-Returns next host visited jump none lists k =
      chain_ref-Returns next host visited jump.host_ref lists k
  chain_address-Returns next host visited jump (some address) lists k =
      elim (Bool-cases (address == "")) [
        | inl t ↦ rw t (chain_ref-Returns next host visited jump.host_ref lists k)
        | inr f ↦ rw f (_, refl)
      ]

  chain_jump-Returns :
      (next : ChainHost → List String → Resolution) (host : ChainHost) (visited : List String)
      (jump : Option JumpHost)
      → Lists
      → (includes visited (chain_key host) ≡ false
          → NextReturns next (visited ++ (chain_key host ∷ [])))
      → Returns (chain_jump get next host visited jump)
  unfolding chain_jump
  chain_jump-Returns next host visited none lists k = (ok [], refl)
  chain_jump-Returns next host visited (some jump) lists k =
      elim (Bool-cases (includes visited (chain_key host))) [
        | inl t ↦ rw t (_, refl)
        | inr f ↦ rw f (
            chain_address-Returns next host (visited ++ (chain_key host ∷ [])) jump jump.address
              lists (k f))
      ]

  chain-Returns :
      (fuel : ℕ) (host : ChainHost) (visited : List String)
      → Lists
      → In (chain_key host) keys
      → tally (unvisited visited) keys < fuel
      → Returns (resolve_jump_chain get fuel host visited)
  unfolding resolve_jump_chain
  chain-Returns zero host visited lists m b = absurd (omega arith)
  chain-Returns (suc fuel) host visited lists m b =
      chain_jump-Returns (λ h v. resolve_jump_chain get fuel h v) host visited host.spec.jump_host
        lists
        (λ new h n.
          chain-Returns fuel h (visited ++ (chain_key host ∷ [])) lists n
            (omega (arith, unvisited_lt visited (chain_key host) keys m new)))

  -- If the client only returns hosts whose keys are in a list, and the host's key is in it, a depth
  -- of one more than the length of the list is enough: the chain is returned, or an error, also
  -- where jump hosts refer to each other in a circle.
  pub resolve_jump_chain-Returns :
      (host : ChainHost)
      → Lists
      → In (chain_key host) keys
      → Returns (resolve_jump_chain get (suc (length keys)) host [])
  resolve_jump_chain-Returns host lists m =
      chain-Returns (suc (length keys)) host [] lists m (omega (arith, unvisited_all keys))
