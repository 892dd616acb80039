-- ===== src/Informer.antt =====
-- packages/operator/src/k8s/informer.ts: the queue of one controller. Its state is the three maps of the
-- class, the timers of the runtime that are armed, and the reconciles that are awaited. `setTimeout`
-- gives each timer a number of its own. An object is what the code reads of it, and the rest as a
-- text. The watch's handle is left out: an event may come at any time.
pub mod Steps
pub mod Held
pub mod Timers
pub mod Cache
pub mod Changes
pub mod Backoff
use a5e.Base.{
  ℕ, zero, suc, ◌*◌, ◌^◌, min, String, ◌<>◌, Bool, true, false, Option, none, some, List, [], ◌∷◌,
  map, ◌==◌, string_eq, nat_eq, if◌then◌else◌,
}
use a5e.Base.Dict
use a5e.Base.Dict.{Dict}
use a5e.Labels.{or_default, includes}
use a5e.Users.Names.{claimed}

pub record Obj : Type 0 where
  pub namespace : Option String
  pub name : String
  pub json : String

-- `keyOf`
unfoldable pub key_of : Obj → String
unfolding claimed
key_of obj = elim (claimed obj.namespace) [
  | none ↦ obj.name
  | some namespace ↦ namespace <> ("/" <> obj.name)
]

pub record Timer : Type 0 where
  pub key : String
  pub delay : ℕ

pub record Controller : Type 0 where
  pub cache : Dict String Obj
  pub timers : Dict String ℕ
  pub retries : Dict String ℕ
  pub stopped : Bool
  -- The runtime: the armed timers by number, and the number of the next.
  pub armed : Dict ℕ Timer
  pub next_timer : ℕ
  -- The keys of the reconciles that have not ended, and what each was given, the latest first.
  pub running : List String
  pub handed : Dict String Obj

abbrev pub initial : Controller
initial = record {
  cache = [];
  timers = [];
  retries = [];
  stopped = false;
  armed = [];
  next_timer = 0;
  running = [];
  handed = [];
}

unfoldable pub clear_timeout : Option ℕ → Dict ℕ Timer → Dict ℕ Timer
unfolding Dict.erase
clear_timeout none armed = armed
clear_timeout (some i) armed = Dict.erase i armed

-- `clearSchedule`
unfoldable pub clear_schedule : String → Controller → Controller
unfolding clear_timeout Dict.lookup Dict.erase
clear_schedule key c = record c {
  armed = clear_timeout (Dict.lookup key c.timers) c.armed;
  timers = Dict.erase key c.timers;
  retries = Dict.erase key c.retries;
}

unfoldable pub hand : String → Option Obj → Controller → Controller
hand key none c = c
hand key (some obj) c = record c { running = key ∷ c.running; handed = (key, obj) ∷ c.handed }

-- `run`, up to its `await`.
unfoldable pub run : String → Controller → Controller
unfolding hand Dict.lookup Dict.erase
run key c = hand key (Dict.lookup key c.cache) (record c { timers = Dict.erase key c.timers })

-- A timer that is armed fires.
unfoldable pub fire : ℕ → String → Controller → Controller
unfolding run Dict.erase
fire i key c = run key (record c { armed = Dict.erase i c.armed })

unfoldable pub clear_all : Dict String ℕ → Dict ℕ Timer → Dict ℕ Timer
unfolding Dict.erase
clear_all [] armed = armed
clear_all ((key, i) ∷ timers) armed = clear_all timers (Dict.erase i armed)

-- `stop`
unfoldable pub stop : Controller → Controller
unfolding clear_all
stop c = record c { stopped = true; armed = clear_all c.timers c.armed }

unfoldable pub only_seen : List String → Dict String Obj → Dict String Obj
unfolding includes
only_seen seen [] = []
only_seen seen ((key, obj) ∷ cache) =
    let rest = only_seen seen cache in if includes seen key then (key, obj) ∷ rest else rest

remove_one : String → List String → List String
remove_one key [] = []
remove_one key (k ∷ ks) = let rest = remove_one key ks in if k == key then ks else k ∷ rest

pub data WatchEventType : Type 0 where
  added modified deleted bookmark error : WatchEventType

module _ (debounce_ms : Option ℕ) where
  -- `schedule`
  unfoldable pub schedule : String → Option ℕ → Controller → Controller
  unfolding clear_timeout Dict.lookup Dict.insert
  schedule key delay_override c = record c {
    armed =
        Dict.insert c.next_timer
          (record { key = key; delay = or_default (or_default 200 debounce_ms) delay_override })
          (clear_timeout (Dict.lookup key c.timers) c.armed);
    timers = Dict.insert key c.next_timer c.timers;
    next_timer = suc c.next_timer;
  }

  unfoldable pub put : Obj → Controller → Controller
  unfolding schedule Dict.insert
  put obj c = schedule (key_of obj) none (record c { cache = Dict.insert (key_of obj) obj c.cache })

  -- The callback of the watch.
  unfoldable pub on_event : WatchEventType → Obj → Controller → Controller
  unfolding put clear_schedule Dict.erase
  on_event added obj c = put obj c
  on_event modified obj c = put obj c
  on_event deleted obj c =
      clear_schedule (key_of obj) (record c { cache = Dict.erase (key_of obj) c.cache })
  on_event bookmark obj c = put obj c
  on_event error obj c = put obj c

  unfoldable pub put_all : List Obj → Controller → Controller
  unfolding put
  put_all [] c = c
  put_all (obj ∷ objs) c = put_all objs (put obj c)

  -- `resync`, after its list.
  unfoldable pub resync : List Obj → Controller → Controller
  unfolding put_all only_seen
  resync items c =
      let d = put_all items c in record d { cache = only_seen (map key_of items) d.cache }

  -- `run`, after a reconcile that gave a result.
  unfoldable pub succeed : String → Option ℕ → Controller → Controller
  unfolding schedule remove_one Dict.erase
  succeed key requeue_after_ms c =
      let d = record c { running = remove_one key c.running; retries = Dict.erase key c.retries } in
      elim requeue_after_ms [ none ↦ d | some ms ↦ schedule key (some ms) d ]

  module _ (max_backoff_ms : Option ℕ) where
    abbrev pub attempt_of : String → Controller → ℕ
    attempt_of key c = suc (or_default 0 (Dict.lookup key c.retries))

    -- The delay before its jitter.
    unfoldable pub backoff : ℕ → ℕ
    backoff attempt = min (or_default 300000 max_backoff_ms) (1000 * 2 ^ attempt)

    -- `run`, after a reconcile that threw. What `* (0.5 + Math.random() * 0.5)` makes of a delay is given.
    unfoldable pub fail : (ℕ → ℕ) → String → Controller → Controller
    unfolding schedule backoff remove_one Dict.insert Dict.lookup
    fail jittered key c = schedule key (some (jittered (backoff (attempt_of key c)))) (record c {
      running = remove_one key c.running;
      retries = Dict.insert key (attempt_of key c) c.retries;
    })
