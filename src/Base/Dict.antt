-- ===== src/Base/Dict.antt =====
-- A JavaScript `Map`, or an object used as a dictionary: entries in insertion order. Setting a
-- present key keeps its place.
use mathlib.Core.Option.{some-injective}
use a5e.Base.{
  ◌≡◌, ◌≢◌, ◌⊎◌, inl, inr, refl, sym, ◌∙◌, Bool, Bool-cases, true, false, Option, none, some, List,
  [], ◌∷◌, arith, Eq, ◌==◌, ==_iff, ==_false, ==_apart, if◌then◌else◌,
}

abbrev pub Dict {ℓ κ} : Type ℓ → Type κ → Type (ℓ ⊔ κ)
Dict K V = List (K × V)

module _ {ℓ κ} {K : Type ℓ} {V : Type κ} ⦃e : Eq K⦄ where
  -- `d[k]`, `d.get(k)`
  unfoldable pub lookup : K → Dict K V → Option V
  lookup k [] = none
  lookup k ((j, v) ∷ d) = if j == k then some v else lookup k d

  -- `d.has(k)`
  unfoldable pub has : K → Dict K V → Bool
  has k [] = false
  has k ((j, v) ∷ d) = if j == k then true else has k d

  -- `d[k] = v`, `d.set(k, v)`
  unfoldable pub insert : K → V → Dict K V → Dict K V
  insert k v [] = (k, v) ∷ []
  insert k v ((j, w) ∷ d) = if j == k then (j, v) ∷ d else (j, w) ∷ insert k v d

  -- `delete d[k]`, `d.delete(k)`
  unfoldable pub erase : K → Dict K V → Dict K V
  erase k [] = []
  erase k ((j, w) ∷ d) = let rest = erase k d in if j == k then rest else (j, w) ∷ rest

  pub lookup-insert :
      (k j : K) (v : V) (d : Dict K V)
      → lookup j (insert k v d) ≡ (if k == j then some v else lookup j d)
  unfolding lookup insert
  lookup-insert k j v [] = refl
  lookup-insert k j v ((i, w) ∷ d) =
      ground (arith, ==_iff k j, ==_iff i k, ==_iff i j, lookup-insert k j v d)

  pub lookup-erase :
      (k j : K) (d : Dict K V) → lookup j (erase k d) ≡ (if k == j then none else lookup j d)
  unfolding lookup erase
  lookup-erase k j [] = ground arith
  lookup-erase k j ((i, w) ∷ d) =
      ground (arith, ==_iff k j, ==_iff i k, ==_iff i j, lookup-erase k j d)

  pub lookup-insert_same : (k : K) (v : V) (d : Dict K V) → lookup k (insert k v d) ≡ some v
  lookup-insert_same k v d = ground (arith, ==_iff k k, lookup-insert k k v d)

  pub lookup-insert_other :
      (k j : K) (v : V) (d : Dict K V) → k ≢ j → lookup j (insert k v d) ≡ lookup j d
  lookup-insert_other k j v d n = rw (==_false k j n) at (lookup-insert k j v d)

  pub lookup-erase_other : (k j : K) (d : Dict K V) → k ≢ j → lookup j (erase k d) ≡ lookup j d
  lookup-erase_other k j d n = rw (==_false k j n) at (lookup-erase k j d)

  -- What is found after a key was set was set, or was there.
  pub lookup-insert-some :
      (k j : K) (v w : V) (d : Dict K V)
      → lookup j (insert k v d) ≡ some w
      → ((k ≡ j) × (v ≡ w)) ⊎ ((k ≢ j) × (lookup j d ≡ some w))
  lookup-insert-some k j v w d e = elim (Bool-cases (k == j)) [
    | inl y ↦
        let same = (==_iff k j).0 y in
        inl (same, some-injective v w (rw y at (sym (lookup-insert k j v d) ∙ e)))
    | inr n ↦ inr (==_apart k j n, rw n at (sym (lookup-insert k j v d) ∙ e))
  ]

  pub lookup-erase-some :
      (k j : K) (w : V) (d : Dict K V)
      → lookup j (erase k d) ≡ some w
      → (k ≢ j) × (lookup j d ≡ some w)
  lookup-erase-some k j w d e = elim (Bool-cases (k == j)) [
    | inl y ↦ let e' : none ≡ some w = rw y at (sym (lookup-erase k j d) ∙ e) in cc
    | inr n ↦ (==_apart k j n, rw n at (sym (lookup-erase k j d) ∙ e))
  ]
