-- ===== src/Informer/Timers.antt =====
-- packages/operator/src/k8s/informer.ts: the timers that are armed against the map of the class, over all
-- steps of a controller.
use mathlib.Core.Option.{some-injective}
use a5e.Base.{
  ℕ, ◌≡◌, sym, ap, subst, ◌∙◌, String, Option, none, some, List, [], ◌∷◌, nat_eq, string_eq,
}
use a5e.Base.Dict
use a5e.Labels.{or_default}
use a5e.Informer.{
  Obj, Timer, Controller, initial, key_of, clear_schedule, hand, fire, stop, WatchEventType, added,
  modified, deleted, bookmark, error, schedule, put, on_event, put_all, resync, succeed, fail,
  attempt_of, backoff,
}
use a5e.Informer.Steps.{Step, watched, listed, fired, succeeded, failed, halted, Reach, start, step}
use a5e.Informer.Held.{IsSound, IsHeld-erase, IsHeld-insert, IsHeld-fire, lookup-clear_all-some}

clear_schedule-IsSound :
    (key : String) (c : Controller) → IsSound c → IsSound (clear_schedule key c)
unfolding clear_schedule
clear_schedule-IsSound key c h = IsHeld-erase c.timers c.armed c.next_timer c.stopped h key

hand-IsSound : (key : String) (o : Option Obj) (c : Controller) → IsSound c → IsSound (hand key o c)
unfolding hand
hand-IsSound key none c h = h
hand-IsSound key (some obj) c h = h

fire-IsSound :
    (i : ℕ) (t : Timer) (c : Controller)
    → Dict.lookup i c.armed ≡ some t
    → IsSound c
    → IsSound (fire i t.key c)
unfolding fire
fire-IsSound i t c a h =
    hand-IsSound t.key (Dict.lookup t.key c.cache) _
      (IsHeld-fire c.timers c.armed c.next_timer c.stopped h i t a)

stop-IsSound : (c : Controller) → IsSound c → IsSound (stop c)
unfolding stop
stop-IsSound c h = record {
  own = λ i t e. h.own i t (lookup-clear_all-some c.timers i t c.armed e);
  older = λ i t e. h.older i t (lookup-clear_all-some c.timers i t c.armed e);
  live = λ s. cc;
}

initial-IsSound : IsSound initial
unfolding Dict.lookup
initial-IsSound = record { own = λ i t e. cc; older = λ i t e. cc; live = λ s key i e. cc }

module _ (debounce_ms max_backoff_ms : Option ℕ) where
  schedule-IsSound :
      (key : String) (delay : Option ℕ) (c : Controller)
      → IsSound c
      → IsSound (schedule debounce_ms key delay c)
  unfolding schedule
  schedule-IsSound key delay c h =
      IsHeld-insert c.timers c.armed c.next_timer c.stopped h key
        (or_default (or_default 200 debounce_ms) delay)

  put-IsSound : (obj : Obj) (c : Controller) → IsSound c → IsSound (put debounce_ms obj c)
  unfolding put schedule
  put-IsSound obj c h = schedule-IsSound (key_of obj) none c h

  put_all-IsSound :
      (objs : List Obj) (c : Controller) → IsSound c → IsSound (put_all debounce_ms objs c)
  unfolding put_all
  put_all-IsSound [] c h = h
  put_all-IsSound (obj ∷ objs) c h =
      put_all-IsSound objs (put debounce_ms obj c) (put-IsSound obj c h)

  on_event-IsSound :
      (type : WatchEventType) (obj : Obj) (c : Controller)
      → IsSound c
      → IsSound (on_event debounce_ms type obj c)
  unfolding on_event clear_schedule
  on_event-IsSound added obj c h = put-IsSound obj c h
  on_event-IsSound modified obj c h = put-IsSound obj c h
  on_event-IsSound deleted obj c h = clear_schedule-IsSound (key_of obj) c h
  on_event-IsSound bookmark obj c h = put-IsSound obj c h
  on_event-IsSound error obj c h = put-IsSound obj c h

  succeed-IsSound :
      (key : String) (requeue : Option ℕ) (c : Controller)
      → IsSound c
      → IsSound (succeed debounce_ms key requeue c)
  unfolding succeed schedule
  succeed-IsSound key none c h = h
  succeed-IsSound key (some ms) c h = schedule-IsSound key (some ms) c h

  Step-IsSound : (c c' : Controller) → Step debounce_ms max_backoff_ms c c' → IsSound c → IsSound c'
  unfolding resync fail schedule
  Step-IsSound c c' (watched type obj e) h = subst IsSound (sym e) (on_event-IsSound type obj c h)
  Step-IsSound c c' (listed items e) h = subst IsSound (sym e) (put_all-IsSound items c h)
  Step-IsSound c c' (fired i t a e) h = subst IsSound (sym e) (fire-IsSound i t c a h)
  Step-IsSound c c' (succeeded key requeue m e) h =
      subst IsSound (sym e) (succeed-IsSound key requeue c h)
  Step-IsSound c c' (failed key jittered m e) h = subst IsSound (sym e) (
      schedule-IsSound key
        (some (
          jittered
            (backoff debounce_ms max_backoff_ms (attempt_of debounce_ms max_backoff_ms key c))))
        c h)
  Step-IsSound c c' (halted e) h = subst IsSound (sym e) (stop-IsSound c h)

  pub Reach-IsSound : (c : Controller) → Reach debounce_ms max_backoff_ms c → IsSound c
  Reach-IsSound c start = initial-IsSound
  Reach-IsSound c (step b d r s) = Step-IsSound b d s (Reach-IsSound b r)

  -- Whatever steps a controller has taken, two armed timers of one object are one timer, and the map of
  -- the class holds it for that object.
  pub one_timer_per_key :
      (c : Controller) (i j : ℕ) (t u : Timer)
      → Reach debounce_ms max_backoff_ms c
      → Dict.lookup i c.armed ≡ some t
      → Dict.lookup j c.armed ≡ some u
      → t.key ≡ u.key
      → (i ≡ j) × (Dict.lookup t.key c.timers ≡ some i)
  one_timer_per_key c i j t u r a b same =
      let h = Reach-IsSound c r in
      (
        some-injective i j
            (sym (h.own i t a) ∙ (ap (λ k. Dict.lookup k c.timers) same ∙ h.own j u b)),
        h.own i t a,
      )
