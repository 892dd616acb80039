-- ===== src/Informer/Held.antt =====
-- The timers of packages/operator/src/k8s/informer.ts: those that are armed and the map of the class, when
-- one is cleared, set or fires.
use mathlib.Core.Option.{some-injective}
use a5e.Base.{
  ℕ, suc, ◌<◌, ◌≡◌, ◌≢◌, refl, sym, ap, subst, ◌∙◌, String, Bool, false, Option, none, some, [],
  ◌∷◌, inl, inr, arith, nat_eq, string_eq,
}
use a5e.Base.Dict
use a5e.Base.Dict.{
  Dict, lookup-insert_same, lookup-insert_other, lookup-erase_other, lookup-insert-some,
  lookup-erase-some,
}
use a5e.Informer.{Timer, Controller, clear_timeout, clear_all}

lookup-clear_timeout-some :
    (o : Option ℕ) (j : ℕ) (t : Timer) (armed : Dict ℕ Timer)
    → Dict.lookup j (clear_timeout o armed) ≡ some t
    → (o ≢ some j) × (Dict.lookup j armed ≡ some t)
unfolding clear_timeout
lookup-clear_timeout-some none j t armed e = ((λ n. let n' : none ≡ some j = n in cc), e)
lookup-clear_timeout-some (some i) j t armed e =
    let (n, e') = lookup-erase-some i j t armed e in ((λ same. n (some-injective i j same)), e')

lookup-clear_timeout_other :
    (o : Option ℕ) (j : ℕ) (armed : Dict ℕ Timer)
    → o ≢ some j
    → Dict.lookup j (clear_timeout o armed) ≡ Dict.lookup j armed
unfolding clear_timeout
lookup-clear_timeout_other none j armed n = refl
lookup-clear_timeout_other (some i) j armed n = lookup-erase_other i j armed (λ e. n (ap some e))

-- A timer that is armed is the one of its key in the map and older than the next, and unless the
-- controller is stopped each timer of the map is armed, for its key.
pub record IsHeld (timers : Dict String ℕ) (armed : Dict ℕ Timer) (next : ℕ) (stopped : Bool)
    : Type 0 where
  pub own : (i : ℕ) (t : Timer) → Dict.lookup i armed ≡ some t → Dict.lookup t.key timers ≡ some i
  pub older : (i : ℕ) (t : Timer) → Dict.lookup i armed ≡ some t → i < next
  pub live :
      stopped ≡ false
      → (key : String) (i : ℕ) → Dict.lookup key timers ≡ some i
      → (t : Timer) × (Dict.lookup i armed ≡ some t) × (t.key ≡ key)

abbrev pub IsSound : Controller → Type 0
IsSound c = IsHeld c.timers c.armed c.next_timer c.stopped

module _ (timers : Dict String ℕ) (armed : Dict ℕ Timer) (next : ℕ) (stopped : Bool)
    (h : IsHeld timers armed next stopped) where
  -- Two keys with one timer are one key.
  one_key :
      stopped ≡ false
      → (j k : String) (i i' : ℕ) → Dict.lookup j timers ≡ some i
      → Dict.lookup k timers ≡ some i'
      → i ≡ i'
      → j ≡ k
  one_key s j k i i' e e' same =
      let (t, a, tj) = h.live s j i e in
      let (u, b, uk) = h.live s k i' e' in
      let t≡u : t ≡ u = some-injective t u (sym a ∙ (ap (λ x. Dict.lookup x armed) same ∙ b)) in
      sym tj ∙ (ap (λ x. x.key) t≡u ∙ uk)

  -- The timer of a key is cleared where an armed one has another key.
  other_timer :
      (key : String) (j : ℕ) (t : Timer)
      → Dict.lookup j armed ≡ some t
      → Dict.lookup key timers ≢ some j
      → key ≢ t.key
  other_timer key j t a n e = n (ap (λ k. Dict.lookup k timers) e ∙ h.own j t a)

  kept :
      stopped ≡ false
      → (key j : String) (i : ℕ) → key ≢ j
      → Dict.lookup j timers ≡ some i
      → (t : Timer) × (Dict.lookup i (clear_timeout (Dict.lookup key timers) armed) ≡ some t)
        × (t.key ≡ j)
  kept s key j i n e =
      let (t, a, tj) = h.live s j i e in
      (
        t,
        lookup-clear_timeout_other (Dict.lookup key timers) i armed
              (λ e'. n (one_key s key j i i e' e refl))
            ∙ a,
        tj,
      )

  pub IsHeld-erase :
      (key : String)
      → IsHeld (Dict.erase key timers) (clear_timeout (Dict.lookup key timers) armed) next stopped
  IsHeld-erase key = record {
    own = λ j t e.
        let (n, a) = lookup-clear_timeout-some (Dict.lookup key timers) j t armed e in
        lookup-erase_other key t.key timers (other_timer key j t a n) ∙ h.own j t a;
    older = λ j t e. h.older j t (lookup-clear_timeout-some (Dict.lookup key timers) j t armed e).1;
    live = λ s k i e. let (n, e') = lookup-erase-some key k i timers e in kept s key k i n e';
  }

  pub IsHeld-insert :
      (key : String) (delay : ℕ)
      → IsHeld
          (Dict.insert key next timers)
          (Dict.insert next
            (record { key = key; delay = delay })
            (clear_timeout (Dict.lookup key timers) armed))
          (suc next)
          stopped
  IsHeld-insert key delay = record { own = own; older = older; live = live }
    where
      new : Timer
      new = record { key = key; delay = delay }

      cleared : Dict ℕ Timer
      cleared = clear_timeout (Dict.lookup key timers) armed

      own :
          (j : ℕ) (t : Timer)
          → Dict.lookup j (Dict.insert next new cleared) ≡ some t
          → Dict.lookup t.key (Dict.insert key next timers) ≡ some j
      own j t e = elim (lookup-insert-some next j new t cleared e) [
        | inl (same, is) ↦
            subst (λ k. Dict.lookup k (Dict.insert key next timers) ≡ some j) (ap (λ x. x.key) is)
              (lookup-insert_same key next timers ∙ ap some same)
        | inr (_, e') ↦
            let (n, a) = lookup-clear_timeout-some (Dict.lookup key timers) j t armed e' in
            lookup-insert_other key t.key next timers (other_timer key j t a n) ∙ h.own j t a
      ]

      older :
          (j : ℕ) (t : Timer) → Dict.lookup j (Dict.insert next new cleared) ≡ some t → j < suc next
      older j t e = elim (lookup-insert-some next j new t cleared e) [
        | inl (same, _) ↦ omega arith
        | inr (_, e') ↦
            let before =
              h.older j t (lookup-clear_timeout-some (Dict.lookup key timers) j t armed e').1 in
            omega arith
      ]

      live :
          stopped ≡ false
          → (k : String) (i : ℕ) → Dict.lookup k (Dict.insert key next timers) ≡ some i
          → (t : Timer) × (Dict.lookup i (Dict.insert next new cleared) ≡ some t) × (t.key ≡ k)
      live s k i e = elim (lookup-insert-some key k next i timers e) [
        | inl (same, is) ↦ (
          new,
          subst (λ j. Dict.lookup j (Dict.insert next new cleared) ≡ some new) is
              (lookup-insert_same next new cleared),
          same,
        )
        | inr (n, e') ↦
            let (t, a, tk) = kept s key k i n e' in
            let old =
              h.older i t (lookup-clear_timeout-some (Dict.lookup key timers) i t armed a).1 in
            (t, lookup-insert_other next i new cleared (λ same. absurd (omega arith)) ∙ a, tk)
      ]

  pub IsHeld-fire :
      (i : ℕ) (t : Timer)
      → Dict.lookup i armed ≡ some t
      → IsHeld (Dict.erase t.key timers) (Dict.erase i armed) next stopped
  unfolding clear_timeout
  IsHeld-fire i t a =
      subst (λ o. IsHeld (Dict.erase t.key timers) (clear_timeout o armed) next stopped)
        (h.own i t a) (IsHeld-erase t.key)

pub lookup-clear_all-some :
    (timers : Dict String ℕ) (j : ℕ) (t : Timer) (armed : Dict ℕ Timer)
    → Dict.lookup j (clear_all timers armed) ≡ some t
    → Dict.lookup j armed ≡ some t
unfolding clear_all
lookup-clear_all-some [] j t armed e = e
lookup-clear_all-some ((key, i) ∷ timers) j t armed e =
    (lookup-erase-some i j t armed (lookup-clear_all-some timers j t (Dict.erase i armed) e)).1
