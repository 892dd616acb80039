-- ===== src/Leases/Steps.antt =====
-- Replicas that compete for the lease, as steps: time passes, a replica reads the lease, a replica
-- makes the write that follows from what it read. Between the two the others may do anything. The
-- server's documented behaviour is in `Writes`: an object is created only where there is none, and
-- replaced only by a write that carries its version, which then grows; any write may fail.
use a5e.Base.{
  ℕ, ◌+◌, ◌<◌, ◌≡◌, ◌≢◌, String, Bool, true, false, Option, none, some, ◌==◌, string_eq,
  if◌then◌else◌,
}
use a5e.Leases.{
  Lease, Stored, Reading, found, missing, unreadable, Intent, create, replace, intend, Mode, exited,
  after_attempt,
}

-- A replica between its read and its write keeps what it read, and when.
pub data Local : Type 0 where
  idle : Local
  read_at : Reading → ℕ → Local

pub record World : Type 0 where
  pub stored : Option Stored
  pub clock : ℕ
  pub locals : String → Local
  pub modes : String → Mode

abbrev pub set {ℓ} : {A : Type ℓ} → String → A → (String → A) → String → A
set i a f j = if i == j then a else f j

pub data Reads (stored : Option Stored) : Reading → Type 0 where
  reads_found : (s : Stored) → stored ≡ some s → Reads stored (found s)
  reads_missing : stored ≡ none → Reads stored missing
  reads_error : Reads stored unreadable

-- From what is stored, by an intent, to what is stored then, and whether the write succeeded.
pub data Writes (stored : Option Stored) (intent : Intent) (stored' : Option Stored)
    (acquired : Bool) : Type 0 where
  created :
      (lease : Lease) (version : ℕ)
      → intent ≡ create lease
      → stored ≡ none
      → stored' ≡ some (record { lease = lease; version = version })
      → acquired ≡ true
      → Writes stored intent stored' acquired
  replaced :
      (old : Stored) (lease : Lease) (version : ℕ)
      → intent ≡ replace old.version lease
      → stored ≡ some old
      → old.version < version
      → stored' ≡ some (record { lease = lease; version = version })
      → acquired ≡ true
      → Writes stored intent stored' acquired
  failed : stored' ≡ stored → acquired ≡ false → Writes stored intent stored' acquired

module _ (duration : ℕ) where
  pub data Step (w w' : World) : Type 0 where
    tick : (n : ℕ) → w' ≡ record w { clock = w.clock + n } → Step w w'
    read :
        (i : String) (r : Reading)
        → w.modes i ≢ exited
        → w.locals i ≡ idle
        → Reads w.stored r
        → w' ≡ record w { locals = set i (read_at r w.clock) w.locals }
        → Step w w'
    write :
        (i : String) (r : Reading) (time : ℕ) (stored' : Option Stored) (acquired : Bool)
        → w.locals i ≡ read_at r time
        → Writes w.stored (intend i duration time r) stored' acquired
        → w' ≡ record {
          stored = stored';
          clock = w.clock;
          locals = set i idle w.locals;
          modes = set i (after_attempt (w.modes i) acquired) w.modes;
        }
        → Step w w'

  -- A world that is reached from one where no replica has read.
  pub data Reach : World → Type 0 where
    start : (w : World) → ((i : String) → w.locals i ≡ idle) → Reach w
    step : (w w' : World) → Reach w → Step w w' → Reach w'
