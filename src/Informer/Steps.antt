-- ===== src/Informer/Steps.antt =====
-- The steps of a controller of packages/operator/src/k8s/informer.ts, in any order: an event of the watch, a
-- list, a timer that fires, the end of a reconcile, and the stop. Time is left out: any armed timer may fire.
use a5e.Base.{ℕ, ◌≡◌, String, Option, some, List, In, nat_eq}
use a5e.Base.Dict
use a5e.Informer.{
  Obj, Timer, Controller, initial, WatchEventType, on_event, resync, fire, succeed, fail, stop,
}

module _ (debounce_ms max_backoff_ms : Option ℕ) where
  pub data Step (c c' : Controller) : Type 0 where
    watched : (type : WatchEventType) (obj : Obj) → c' ≡ on_event debounce_ms type obj c → Step c c'
    listed : (items : List Obj) → c' ≡ resync debounce_ms items c → Step c c'
    fired : (i : ℕ) (t : Timer) → Dict.lookup i c.armed ≡ some t → c' ≡ fire i t.key c → Step c c'
    succeeded :
        (key : String) (requeue_after_ms : Option ℕ)
        → In key c.running
        → c' ≡ succeed debounce_ms key requeue_after_ms c
        → Step c c'
    failed :
        (key : String) (jittered : ℕ → ℕ)
        → In key c.running
        → c' ≡ fail debounce_ms max_backoff_ms jittered key c
        → Step c c'
    halted : c' ≡ stop c → Step c c'

  pub data Reach : Controller → Type 0 where
    start : Reach initial
    step : (c c' : Controller) → Reach c → Step c c' → Reach c'
