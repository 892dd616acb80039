-- ===== src/Informer/Cache.antt =====
-- The cache of packages/operator/src/k8s/informer.ts beside its timers and what the reconcile was given.
use a5e.Base.{
  ℕ, ◌≡◌, sym, ap, subst, ◌∙◌, String, true, Option, none, some, List, [], ◌∷◌, ◌==◌, ==_iff,
  ==_apart, nat_eq, string_eq, Bool-cases, inl, inr, ◌⊎◌,
}
use a5e.Base.Dict
use a5e.Base.Dict.{
  Dict, lookup-insert_same, lookup-insert_other, lookup-erase_other, lookup-insert-some,
  lookup-erase-some,
}
use a5e.Labels.{includes}
use a5e.Informer.{Obj, Controller, hand, only_seen}

-- An object of the cache has a timer, or it is what the reconcile was last given under its key.
abbrev pub IsAttended :
    (timers : Dict String ℕ) (handed : Dict String Obj) (key : String) (obj : Obj) → Type 0
IsAttended timers handed key obj =
    ((i : ℕ) × (Dict.lookup key timers ≡ some i)) ⊎ (Dict.lookup key handed ≡ some obj)

-- All objects of the cache are attended.
unfoldable pub IsCurrent :
    (cache : Dict String Obj) (timers : Dict String ℕ) (handed : Dict String Obj) → Type 0
IsCurrent cache timers handed =
    (key : String) (obj : Obj) → Dict.lookup key cache ≡ some obj → IsAttended timers handed key obj

-- A new timer.
pub IsCurrent-timer :
    (cache : Dict String Obj) (timers : Dict String ℕ) (handed : Dict String Obj)
    → IsCurrent cache timers handed
    → (key : String) (i : ℕ) → IsCurrent cache (Dict.insert key i timers) handed
unfolding IsCurrent
IsCurrent-timer cache timers handed h key i k obj e = elim (Bool-cases (key == k)) [
  | inl y ↦ inl (
    i,
    subst (λ j. Dict.lookup j (Dict.insert key i timers) ≡ some i) ((==_iff key k).0 y)
        (lookup-insert_same key i timers),
  )
  | inr n ↦ elim (h k obj e) [
    | inl (j, a) ↦ inl (j, lookup-insert_other key k i timers (==_apart key k n) ∙ a)
    | inr a ↦ inr a
  ]
]

-- A new object with a new timer.
pub IsCurrent-put :
    (cache : Dict String Obj) (timers : Dict String ℕ) (handed : Dict String Obj)
    → IsCurrent cache timers handed
    → (key : String) (obj : Obj) (i : ℕ)
    → IsCurrent (Dict.insert key obj cache) (Dict.insert key i timers) handed
unfolding IsCurrent
IsCurrent-put cache timers handed h key obj i k o e =
    elim (lookup-insert-some key k obj o cache e) [
      | inl (same, _) ↦ inl (
        i,
        subst (λ j. Dict.lookup j (Dict.insert key i timers) ≡ some i) same
            (lookup-insert_same key i timers),
      )
      | inr (n, e') ↦ IsCurrent-timer cache timers handed h key i k o e'
    ]

-- An object that is deleted with its timer.
pub IsCurrent-erase :
    (cache : Dict String Obj) (timers : Dict String ℕ) (handed : Dict String Obj)
    → IsCurrent cache timers handed
    → (key : String) → IsCurrent (Dict.erase key cache) (Dict.erase key timers) handed
unfolding IsCurrent
IsCurrent-erase cache timers handed h key k o e =
    let (n, e') = lookup-erase-some key k o cache e in
    elim (h k o e') [ inl (j, a) ↦ inl (j, lookup-erase_other key k timers n ∙ a) | inr a ↦ inr a ]

-- A timer that fires, where the reconcile is given the object.
pub IsCurrent-hand :
    (key : String) (o : Option Obj) (c : Controller)
    → Dict.lookup key c.cache ≡ o
    → IsCurrent c.cache c.timers c.handed
    → IsCurrent c.cache (Dict.erase key c.timers) (hand key o c).handed
unfolding IsCurrent hand Dict.lookup
IsCurrent-hand key none c f h k obj e = elim (Bool-cases (key == k)) [
  | inl y ↦
      let e' : none ≡ some obj =
        sym f ∙ (ap (λ j. Dict.lookup j c.cache) ((==_iff key k).0 y) ∙ e) in
      cc
  | inr n ↦ elim (h k obj e) [
    | inl (j, a) ↦ inl (j, lookup-erase_other key k c.timers (==_apart key k n) ∙ a)
    | inr a ↦ inr a
  ]
]
IsCurrent-hand key (some new) c f h k obj e = elim (Bool-cases (key == k)) [
  | inl y ↦
      let same : some new ≡ some obj =
        sym f ∙ (ap (λ j. Dict.lookup j c.cache) ((==_iff key k).0 y) ∙ e) in
      inr (rw y same)
  | inr n ↦ elim (h k obj e) [
    | inl (j, a) ↦ inl (j, lookup-erase_other key k c.timers (==_apart key k n) ∙ a)
    | inr a ↦ inr (rw n a)
  ]
]

only_seen-includes :
    (seen : List String) (cache : Dict String Obj) (key : String) (obj : Obj)
    → Dict.lookup key (only_seen seen cache) ≡ some obj
    → includes seen key ≡ true
unfolding only_seen Dict.lookup
only_seen-includes seen [] key obj e = let e' : none ≡ some obj = e in cc
only_seen-includes seen ((k, o) ∷ cache) key obj e = elim (Bool-cases (includes seen k)) [
  | inl m ↦ elim (Bool-cases (k == key)) [
    | inl y ↦ subst (λ j. includes seen j ≡ true) ((==_iff k key).0 y) m
    | inr n ↦ only_seen-includes seen cache key obj (rw (m, n) at e)
  ]
  | inr m ↦ only_seen-includes seen cache key obj (rw m at e)
]

lookup-only_seen :
    (seen : List String) (cache : Dict String Obj) (key : String) (obj : Obj)
    → Dict.lookup key (only_seen seen cache) ≡ some obj
    → includes seen key ≡ true
    → Dict.lookup key cache ≡ some obj
unfolding only_seen Dict.lookup
lookup-only_seen seen [] key obj e m = e
lookup-only_seen seen ((k, o) ∷ cache) key obj e m = elim (Bool-cases (k == key)) [
  | inl y ↦
      let same = (==_iff k key).0 y in
      let kept : includes seen k ≡ true = subst (λ j. includes seen j ≡ true) (sym same) m in
      rw y (rw (kept, y) at e)
  | inr n ↦ elim (Bool-cases (includes seen k)) [
    | inl m' ↦ rw n (lookup-only_seen seen cache key obj (rw (m', n) at e) m)
    | inr m' ↦ rw n (lookup-only_seen seen cache key obj (rw m' at e) m)
  ]
]

pub IsCurrent-only_seen :
    (seen : List String) (cache : Dict String Obj) (timers : Dict String ℕ)
    (handed : Dict String Obj)
    → IsCurrent cache timers handed
    → IsCurrent (only_seen seen cache) timers handed
unfolding IsCurrent
IsCurrent-only_seen seen cache timers handed h key obj e =
    h key obj (lookup-only_seen seen cache key obj e (only_seen-includes seen cache key obj e))
