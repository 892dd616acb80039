-- ===== src/Informer/Backoff.antt =====
-- The delays after failures, in packages/operator/src/k8s/informer.ts.
use a5e.Base.{
  ℕ, suc, ◌+◌, ◌*◌, ◌^◌, ◌≤◌, ◌≡◌, refl, sym, ap, subst, ◌∙◌, min, String, Option, none, some, List,
  [], ◌∷◌, ◌==◌, ==_iff, nat_eq, string_eq, if◌then◌else◌, Bool-cases, inl, inr,
}
use a5e.Base.Dict
use a5e.Base.Dict.{lookup-insert, lookup-erase, lookup-insert_same}
use a5e.Labels.{or_default}
use a5e.Informer.{
  Obj, Timer, Controller, key_of, clear_schedule, hand, fire, stop, WatchEventType, added, modified,
  deleted, bookmark, error, schedule, put, on_event, put_all, resync, attempt_of, backoff, succeed,
  fail,
}
use a5e.Informer.Steps.{Step, watched, listed, fired, succeeded, failed, halted, Reach, start, step}

-- How often the reconcile of a key has failed since it last succeeded or its object was deleted.
abbrev after_event : WatchEventType → Obj → String → ℕ → ℕ
after_event added obj key n = n
after_event modified obj key n = n
after_event deleted obj key n = if key_of obj == key then 0 else n
after_event bookmark obj key n = n
after_event error obj key n = n

module _ (debounce_ms max_backoff_ms : Option ℕ) where
  abbrev after_step : {c c' : Controller} → Step debounce_ms max_backoff_ms c c' → String → ℕ → ℕ
  after_step (watched type obj e) key n = after_event type obj key n
  after_step (listed items e) key n = n
  after_step (fired i t a e) key n = n
  after_step (succeeded k requeue m e) key n = if k == key then 0 else n
  after_step (failed k jittered m e) key n = if k == key then suc n else n
  after_step (halted e) key n = n

  unfoldable pub failures : {c : Controller} → Reach debounce_ms max_backoff_ms c → String → ℕ
  failures start key = 0
  failures (step b c r s) key = after_step s key (failures r key)

  abbrev retries_of : String → Controller → ℕ
  retries_of key c = or_default 0 (Dict.lookup key c.retries)

  retries-put_all :
      (objs : List Obj) (c : Controller) → (put_all debounce_ms objs c).retries ≡ c.retries
  unfolding put_all put schedule
  retries-put_all [] c = refl
  retries-put_all (obj ∷ objs) c = retries-put_all objs (put debounce_ms obj c)

  retries-hand :
      (key : String) (o : Option Obj) (c : Controller) → (hand key o c).retries ≡ c.retries
  unfolding hand
  retries-hand key none c = refl
  retries-hand key (some obj) c = refl

  erased :
      (k key : String) (c : Controller)
      → or_default 0 (Dict.lookup key (Dict.erase k c.retries))
        ≡ (if k == key then 0 else retries_of key c)
  erased k key c = elim (Bool-cases (k == key)) [
    | inl y ↦ rw (lookup-erase k key c.retries, y) refl
    | inr n ↦ rw (lookup-erase k key c.retries, n) refl
  ]

  inserted :
      (k key : String) (c : Controller)
      → or_default 0
          (Dict.lookup key (Dict.insert k (attempt_of debounce_ms max_backoff_ms k c) c.retries))
        ≡ (if k == key then suc (retries_of key c) else retries_of key c)
  inserted k key c = elim (Bool-cases (k == key)) [
    | inl y ↦
        rw (lookup-insert k key (attempt_of debounce_ms max_backoff_ms k c) c.retries, y)
          (ap (λ j. suc (retries_of j c)) ((==_iff k key).0 y))
    | inr n ↦ rw (lookup-insert k key (attempt_of debounce_ms max_backoff_ms k c) c.retries, n) refl
  ]

  retries-on_event :
      (type : WatchEventType) (obj : Obj) (key : String) (c : Controller)
      → retries_of key (on_event debounce_ms type obj c)
        ≡ after_event type obj key (retries_of key c)
  unfolding on_event put schedule clear_schedule
  retries-on_event added obj key c = refl
  retries-on_event modified obj key c = refl
  retries-on_event deleted obj key c = erased (key_of obj) key c
  retries-on_event bookmark obj key c = refl
  retries-on_event error obj key c = refl

  retries-succeed :
      (k : String) (requeue : Option ℕ) (key : String) (c : Controller)
      → retries_of key (succeed debounce_ms k requeue c)
        ≡ (if k == key then 0 else retries_of key c)
  unfolding succeed schedule
  retries-succeed k none key c = erased k key c
  retries-succeed k (some ms) key c = erased k key c

  retries-step :
      (c c' : Controller) (s : Step debounce_ms max_backoff_ms c c') (key : String)
      → retries_of key c' ≡ after_step s key (retries_of key c)
  unfolding resync fire fail schedule stop
  retries-step c c' (watched type obj e) key =
      ap (retries_of key) e ∙ retries-on_event type obj key c
  retries-step c c' (listed items e) key =
      ap (retries_of key) e ∙ ap (λ d. or_default 0 (Dict.lookup key d)) (retries-put_all items c)
  retries-step c c' (fired i t a e) key =
      ap (retries_of key) e
      ∙ ap (λ d. or_default 0 (Dict.lookup key d))
          (retries-hand t.key (Dict.lookup t.key c.cache) _)
  retries-step c c' (succeeded k requeue m e) key =
      ap (retries_of key) e ∙ retries-succeed k requeue key c
  retries-step c c' (failed k jittered m e) key = ap (retries_of key) e ∙ inserted k key c
  retries-step c c' (halted e) key = ap (retries_of key) e

  -- The count of the class is the number of failures in a row.
  retries-failures :
      (c : Controller) (r : Reach debounce_ms max_backoff_ms c) (key : String)
      → retries_of key c ≡ failures r key
  unfolding failures Dict.lookup
  retries-failures c start key = refl
  retries-failures c (step b _ r s) key =
      retries-step b c s key ∙ ap (after_step s key) (retries-failures b r key)

  -- After the next failure of a key, the latest timer is the key's, and it waits between half and the
  -- whole of 1000 · 2^n milliseconds, or of the bound where that is less, where n counts the failures
  -- since the key last succeeded or its object was deleted, this one included, if the jitter takes a
  -- delay to between its half, rounded down, and its whole.
  pub fail-delay :
      (c : Controller) (r : Reach debounce_ms max_backoff_ms c) (key : String) (jittered : ℕ → ℕ)
      → ((n : ℕ) → n ≤ 2 * jittered n + 1)
      → ((n : ℕ) → jittered n ≤ n)
      → (t : Timer) × (Dict.lookup c.next_timer
            (fail debounce_ms max_backoff_ms jittered key c).armed
          ≡ some t)
        × (t.key ≡ key)
        × (min (or_default 300000 max_backoff_ms) (1000 * 2 ^ suc (failures r key))
            ≤ 2 * t.delay + 1)
        × (t.delay ≤ min (or_default 300000 max_backoff_ms) (1000 * 2 ^ suc (failures r key)))
  unfolding fail schedule backoff
  fail-delay c r key jittered low high =
      let bound = backoff debounce_ms max_backoff_ms (suc (failures r key)) in
      let same : backoff debounce_ms max_backoff_ms (attempt_of debounce_ms max_backoff_ms key c)
          ≡ bound =
        ap (λ n. backoff debounce_ms max_backoff_ms (suc n)) (retries-failures c r key) in
      (
        record {
          key = key;
          delay =
              jittered
                (backoff debounce_ms max_backoff_ms (attempt_of debounce_ms max_backoff_ms key c));
        },
        lookup-insert_same c.next_timer _ _,
        refl,
        subst (λ n. bound ≤ 2 * jittered n + 1) (sym same) (low bound),
        subst (λ n. jittered n ≤ bound) (sym same) (high bound),
      )
