-- ===== src/Sharding/Names.antt =====
-- Hosts by their keys and by their names: first occurrences in the two ways.
use a5e.Base.{
  String, ◌≡◌, ◌≢◌, ◌↔◌, refl, sym, ap, ◌∙◌, Bool, true, false, List, [], ◌∷◌, ◌++◌, map, arith, In,
  Memᴰ, Bool-cases, inl, inr, string_eq, ==_iff, keep,
}
use a5e.Labels.{includes}
use a5e.Inventory.{ResolvedHost, host_key}
use a5e.Sharding.{ShardHost, inventory_hostname}
use a5e.Sharding.Distinct.{shard_host, firsts, DistinctOn}
use a5e.Sharding.Rederive.{host_name, named, includes-snoc}

-- A host's name tells it from the other hosts of the inventory.
abbrev pub NamesIdentify : List ResolvedHost → Type 0
NamesIdentify hosts =
    (a b : ResolvedHost) → In a hosts → In b hosts → (host_key a ≡ host_key b) ↔ (a.name ≡ b.name)

-- Two sets that have seen the same of the hosts to come, by key and by name.
abbrev pub SeenAlike : List String → List String → List ResolvedHost → Type 0
SeenAlike keys names hosts =
    (x : ResolvedHost) → In x hosts → includes keys (host_key x) ≡ includes names x.name

pub firsts-key_name :
    (keys names : List String) (hosts : List ResolvedHost)
    → NamesIdentify hosts
    → SeenAlike keys names hosts
    → firsts host_key keys hosts ≡ firsts host_name names hosts
unfolding firsts host_name
firsts-key_name keys names [] id same = refl
firsts-key_name keys names (h ∷ hosts) id same = elim (Bool-cases (includes keys (host_key h))) [
  | inl old ↦
      rw (old, sym (same h (Memᴰ.head refl)) ∙ old)
        (firsts-key_name keys names hosts (λ a b m k. id a b (Memᴰ.tail m) (Memᴰ.tail k))
          (λ x m. same x (Memᴰ.tail m)))
  | inr new ↦
      rw (new, sym (same h (Memᴰ.head refl)) ∙ new)
        (ap (◌∷◌ h) (
          firsts-key_name (keys ++ (host_key h ∷ [])) (names ++ (h.name ∷ [])) hosts
            (λ a b m k. id a b (Memᴰ.tail m) (Memᴰ.tail k))
            (λ x m. simp includes-snoc (
              ground (
                arith,
                same x (Memᴰ.tail m),
                ==_iff (host_key h) (host_key x),
                ==_iff h.name x.name,
                id h x (Memᴰ.head refl) (Memᴰ.tail m),
              )))))
]

-- The names of a list of hosts to shard are distinct.
abbrev pub NamesDiffer : List ShardHost → Type 0
NamesDiffer [] = Unit
NamesDiffer (h ∷ hosts) = ((x : ShardHost) → In x hosts → x.name ≢ h.name) × NamesDiffer hosts

pub map-In {ℓ κ} :
    {A : Type ℓ} {B : Type κ} (f : A → B) (xs : List A) (y : B)
    → In y (map f xs)
    → (x : A) × In x xs × (y ≡ f x)
map-In f [] y m = elim m [ ]
map-In f (x ∷ xs) y (Memᴰ.head e) = (x, Memᴰ.head refl, e)
map-In f (x ∷ xs) y (Memᴰ.tail m) = let (z, i, e) = map-In f xs y m in (z, Memᴰ.tail i, e)

pub In-map {ℓ κ} :
    {A : Type ℓ} {B : Type κ} (f : A → B) (xs : List A) (x : A) → In x xs → In (f x) (map f xs)
In-map f [] x m = elim m [ ]
In-map f (y ∷ xs) x (Memᴰ.head e) = Memᴰ.head (ap f e)
In-map f (y ∷ xs) x (Memᴰ.tail m) = Memᴰ.tail (In-map f xs x m)

pub DistinctOn-NamesDiffer :
    (hosts : List ResolvedHost) → DistinctOn host_name hosts → NamesDiffer (map shard_host hosts)
unfolding host_name
DistinctOn-NamesDiffer [] d = tt
DistinctOn-NamesDiffer (h ∷ hosts) (apart, d) = (
  λ x m e. let (y, i, f) = map-In shard_host hosts x m in apart y i (sym (ap (λ z. z.name) f) ∙ e),
  DistinctOn-NamesDiffer hosts d,
)

module _ (ns : List String) where
  abbrev pub listed : ShardHost → Bool
  listed h = includes ns h.name

  pub keep-all :
      (xs : List ShardHost) → ((x : ShardHost) → In x xs → listed x ≡ true) → keep listed xs ≡ xs
  keep-all [] a = refl
  keep-all (x ∷ xs) a =
      rw (a x (Memᴰ.head refl)) (ap (◌∷◌ x) (keep-all xs (λ y m. a y (Memᴰ.tail m))))

  pub keep-none :
      (xs : List ShardHost) → ((x : ShardHost) → In x xs → listed x ≡ false) → keep listed xs ≡ []
  keep-none [] a = refl
  keep-none (x ∷ xs) a = rw (a x (Memᴰ.head refl)) (keep-none xs (λ y m. a y (Memᴰ.tail m)))

  pub keep-append :
      (xs ys : List ShardHost) → keep listed (xs ++ ys) ≡ keep listed xs ++ keep listed ys
  keep-append [] ys = refl
  keep-append (x ∷ xs) ys = elim (Bool-cases (listed x)) [
    | inl t ↦ rw t (ap (◌∷◌ x) (keep-append xs ys))
    | inr f ↦ rw f (keep-append xs ys)
  ]

  pub keep-shard_host :
      (hosts : List ResolvedHost)
      → map inventory_hostname (keep (named ns) hosts)
        ≡ map (λ h. h.inventory_hostname) (keep listed (map shard_host hosts))
  keep-shard_host [] = refl
  keep-shard_host (h ∷ hosts) = elim (Bool-cases (named ns h)) [
    | inl t ↦ rw t (ap (◌∷◌ (inventory_hostname h)) (keep-shard_host hosts))
    | inr f ↦ rw f (keep-shard_host hosts)
  ]
