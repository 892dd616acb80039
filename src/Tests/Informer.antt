-- ===== src/Tests/Informer.antt =====
-- packages/operator/src/k8s/informer.ts at concrete inputs.
use a5e.Base.{
  ℕ, ◌+◌, ◌*◌, ◌^◌, ◌≤◌, ◌≡◌, refl, min, ◌⊎◌, false, none, some, [], ◌∷◌, nat_eq, string_eq, arith,
}
use a5e.Base.Dict
use a5e.Informer.{
  Obj, Timer, Controller, initial, key_of, added, modified, bookmark, on_event, fire, fail,
}
use a5e.Informer.Steps.{Step, watched, Reach, start, step}
use a5e.Informer.Timers.{one_timer_per_key}
use a5e.Informer.Changes.{changes_are_handed}
use a5e.Informer.Backoff.{failures, fail-delay}

abbrev web : Obj
web = record { namespace = some "prod"; name = "web"; json = "{}" }

abbrev changed_web : Obj
changed_web = record web { json = "{\"enabled\":false}" }

-- Two changes of one object in a row.
abbrev twice : Controller
twice = on_event none modified changed_web (on_event none added web initial)

abbrev twice_reached : Reach none none twice
twice_reached =
    step _ _ (step _ _ start (watched added web refl)) (watched modified changed_web refl)

abbrev web_timer : Timer
web_timer = record { key = "prod/web"; delay = 200 }

armed_web : Dict.lookup 1 twice.armed ≡ some web_timer
unfolding on_event key_of
armed_web = refl

cached_web : Dict.lookup "prod/web" twice.cache ≡ some changed_web
unfolding on_event key_of
cached_web = refl

not_stopped : twice.stopped ≡ false
unfolding on_event
not_stopped = refl

one_timer_per_key_example : (◌≡◌ {A = ℕ} 1 1) × (Dict.lookup "prod/web" twice.timers ≡ some 1)
one_timer_per_key_example =
    one_timer_per_key none none twice 1 1 web_timer web_timer twice_reached armed_web armed_web refl

changes_are_handed_example :
    (Dict.lookup "prod/web" twice.handed ≡ some changed_web)
    ⊎ ((i : ℕ) × (t : Timer) × (Dict.lookup i twice.armed ≡ some t)
        × (t.key ≡ "prod/web")
        × Step none none twice (fire i t.key twice)
        × (Dict.lookup "prod/web" (fire i t.key twice).handed ≡ some changed_web))
changes_are_handed_example =
    changes_are_handed none none twice "prod/web" changed_web twice_reached not_stopped cached_web

fail-delay_example :
    (t : Timer) × (Dict.lookup twice.next_timer (fail none none (λ n. n) "prod/web" twice).armed
      ≡ some t)
    × (t.key ≡ "prod/web")
    × (min 300000 (1000 * 2 ^ 1) ≤ 2 * t.delay + 1)
    × (t.delay ≤ min 300000 (1000 * 2 ^ 1))
unfolding failures
fail-delay_example =
    fail-delay none none twice twice_reached "prod/web" (λ n. n) (λ n. omega arith)
      (λ n. omega arith)

-- A change that comes while the object is being reconciled starts a second reconcile of it.
overlap_test :
    (fire 1 "prod/web" (
      on_event none modified changed_web
        (fire 0 "prod/web" (on_event none added web initial)))).running
    ≡ "prod/web" ∷ "prod/web" ∷ []
unfolding fire on_event key_of
overlap_test = refl

-- A bookmark, whose object has no name, is reconciled as an object.
bookmark_test :
    Dict.lookup ""
      (fire 0 "" (
        on_event none bookmark
          (record { namespace = none; name = ""; json = "{}" })
          initial)).handed
    ≡ some (record { namespace = none; name = ""; json = "{}" })
unfolding fire on_event key_of
bookmark_test = refl
