-- ===== src/Informer/Changes.antt =====
-- What becomes of a change that packages/operator/src/k8s/informer.ts has seen.
use a5e.Base.{
  ℕ, ◌≡◌, refl, sym, subst, String, false, Option, none, some, List, [], ◌∷◌, map, ==_refl, nat_eq,
  string_eq, inl, inr, ◌⊎◌,
}
use a5e.Base.Dict
use a5e.Informer.{
  Obj, Timer, Controller, key_of, clear_schedule, hand, fire, stop, WatchEventType, added, modified,
  deleted, bookmark, error, schedule, put, on_event, put_all, resync, succeed, fail,
}
use a5e.Informer.Steps.{Step, watched, listed, fired, succeeded, failed, halted, Reach, start, step}
use a5e.Informer.Timers.{Reach-IsSound}
use a5e.Informer.Cache.{
  IsCurrent, IsCurrent-timer, IsCurrent-put, IsCurrent-erase, IsCurrent-hand, IsCurrent-only_seen,
}

abbrev IsLive : Controller → Type 0
IsLive c = c.stopped ≡ false → IsCurrent c.cache c.timers c.handed

hand-fields :
    (key : String) (o : Option Obj) (c : Controller)
    → ((hand key o c).stopped ≡ c.stopped)
      × ((hand key o c).cache ≡ c.cache)
      × ((hand key o c).timers ≡ c.timers)
unfolding hand
hand-fields key none c = (refl, refl, refl)
hand-fields key (some obj) c = (refl, refl, refl)

module _ (debounce_ms max_backoff_ms : Option ℕ) where
  put-IsLive : (obj : Obj) (c : Controller) → IsLive c → IsLive (put debounce_ms obj c)
  unfolding put schedule
  put-IsLive obj c h s = IsCurrent-put c.cache c.timers c.handed (h s) (key_of obj) obj c.next_timer

  put_all-IsLive :
      (objs : List Obj) (c : Controller) → IsLive c → IsLive (put_all debounce_ms objs c)
  unfolding put_all
  put_all-IsLive [] c h = h
  put_all-IsLive (obj ∷ objs) c h = put_all-IsLive objs (put debounce_ms obj c) (put-IsLive obj c h)

  on_event-IsLive :
      (type : WatchEventType) (obj : Obj) (c : Controller)
      → IsLive c
      → IsLive (on_event debounce_ms type obj c)
  unfolding on_event clear_schedule
  on_event-IsLive added obj c h s = put-IsLive obj c h s
  on_event-IsLive modified obj c h s = put-IsLive obj c h s
  on_event-IsLive deleted obj c h s = IsCurrent-erase c.cache c.timers c.handed (h s) (key_of obj)
  on_event-IsLive bookmark obj c h s = put-IsLive obj c h s
  on_event-IsLive error obj c h s = put-IsLive obj c h s

  resync-IsLive :
      (items : List Obj) (c : Controller) → IsLive c → IsLive (resync debounce_ms items c)
  unfolding resync
  resync-IsLive items c h s =
      let d = put_all debounce_ms items c in
      IsCurrent-only_seen (map key_of items) d.cache d.timers d.handed (put_all-IsLive items c h s)

  succeed-IsLive :
      (key : String) (requeue : Option ℕ) (c : Controller)
      → IsLive c
      → IsLive (succeed debounce_ms key requeue c)
  unfolding succeed schedule
  succeed-IsLive key none c h s = h s
  succeed-IsLive key (some ms) c h s =
      IsCurrent-timer c.cache c.timers c.handed (h s) key c.next_timer

  fail-IsLive :
      (jittered : ℕ → ℕ) (key : String) (c : Controller)
      → IsLive c
      → IsLive (fail debounce_ms max_backoff_ms jittered key c)
  unfolding fail schedule
  fail-IsLive jittered key c h s = IsCurrent-timer c.cache c.timers c.handed (h s) key c.next_timer

  fire-IsLive : (i : ℕ) (key : String) (c : Controller) → IsLive c → IsLive (fire i key c)
  unfolding fire hand
  fire-IsLive i key c h s = by_object (Dict.lookup key c.cache) refl s
    where
      d : Controller
      d = record c { armed = Dict.erase i c.armed; timers = Dict.erase key c.timers }

      by_object : (o : Option Obj) → Dict.lookup key c.cache ≡ o → IsLive (hand key o d)
      by_object none e t = IsCurrent-hand key none c e (h t)
      by_object (some obj) e t = IsCurrent-hand key (some obj) c e (h t)

  Step-IsLive : (c c' : Controller) → Step debounce_ms max_backoff_ms c c' → IsLive c → IsLive c'
  unfolding stop
  Step-IsLive c c' (watched type obj e) h = subst IsLive (sym e) (on_event-IsLive type obj c h)
  Step-IsLive c c' (listed items e) h = subst IsLive (sym e) (resync-IsLive items c h)
  Step-IsLive c c' (fired i t a e) h = subst IsLive (sym e) (fire-IsLive i t.key c h)
  Step-IsLive c c' (succeeded key requeue m e) h =
      subst IsLive (sym e) (succeed-IsLive key requeue c h)
  Step-IsLive c c' (failed key jittered m e) h = subst IsLive (sym e) (fail-IsLive jittered key c h)
  Step-IsLive c c' (halted e) h = subst IsLive (sym e) (λ s. cc)

  Reach-IsLive : (c : Controller) → Reach debounce_ms max_backoff_ms c → IsLive c
  unfolding IsCurrent Dict.lookup
  Reach-IsLive c start s key obj e = let e' : none ≡ some obj = e in cc
  Reach-IsLive c (step b _ r st) s key obj e = Step-IsLive b c st (Reach-IsLive b r) s key obj e

  -- The object that a fired timer hands on is what the reconcile was last given.
  fire-handed :
      (i : ℕ) (key : String) (obj : Obj) (c : Controller)
      → Dict.lookup key c.cache ≡ some obj
      → Dict.lookup key (fire i key c).handed ≡ some obj
  unfolding fire hand Dict.lookup
  fire-handed i key obj c e = rw (e, ==_refl key) refl

  -- No change is lost: whatever steps a controller has taken, until it is stopped each object of its
  -- cache is what the reconcile was last given under its key, or a timer of its key is armed, and when it
  -- fires the reconcile is given that object.
  pub changes_are_handed :
      (c : Controller) (key : String) (obj : Obj)
      → Reach debounce_ms max_backoff_ms c
      → c.stopped ≡ false
      → Dict.lookup key c.cache ≡ some obj
      → (Dict.lookup key c.handed ≡ some obj)
        ⊎ ((i : ℕ) × (t : Timer) × (Dict.lookup i c.armed ≡ some t)
            × (t.key ≡ key)
            × Step debounce_ms max_backoff_ms c (fire i t.key c)
            × (Dict.lookup key (fire i t.key c).handed ≡ some obj))
  unfolding IsCurrent
  changes_are_handed c key obj r s e = elim (Reach-IsLive c r s key obj e) [
    | inr a ↦ inl a
    | inl (i, at) ↦
        let (t, a, tk) = (Reach-IsSound debounce_ms max_backoff_ms c r).live s key i at in
        inr (
          i,
          t,
          a,
          tk,
          fired i t a refl,
          subst (λ k. Dict.lookup key (fire i k c).handed ≡ some obj) (sym tk)
              (fire-handed i key obj c e),
        )
  ]
