-- ===== src/Leases.antt =====
-- packages/operator/src/k8s/leader-election.ts: one attempt to acquire or renew the lease, and what
-- the loop makes of it. Times are milliseconds, and an attempt has one time: that of its reading. The API server is not modelled: what a read and a
-- write may do is in the module `Steps`.
pub mod Steps
pub mod Consistency
pub mod Takeover
use a5e.Base.{
  ℕ, suc, ◌+◌, ◌-◌, ◌*◌, String, Bool, true, false, not, ◌&&◌, Option, none, some, ◌==◌, string_eq,
  option_eq, if◌then◌else◌, ltb,
}
use a5e.Labels.{or_default}

pub record Lease : Type 0 where
  pub holder_identity : Option String
  pub lease_duration_seconds : Option ℕ
  pub acquire_time : Option ℕ
  pub renew_time : Option ℕ
  pub lease_transitions : Option ℕ

-- A lease as the server stores it, with the number of its `resourceVersion`.
pub record Stored : Type 0 where
  pub lease : Lease
  pub version : ℕ

-- What `readNamespacedLease` gives: a lease, a 404, or another error.
pub data Reading : Type 0 where
  found : Stored → Reading
  missing unreadable : Reading

-- The write that follows a reading. A replacement carries the version that was read.
pub data Intent : Type 0 where
  create : Lease → Intent
  replace : (version : ℕ) → Lease → Intent
  decline : Intent

-- `options.leaseDurationSeconds ?? 15`
abbrev pub duration_of : Option ℕ → ℕ
duration_of given = or_default 15 given

unfoldable pub expired : ℕ → ℕ → Lease → Bool
expired duration time lease = ltb (duration * 1000) (time - or_default 0 lease.renew_time)

abbrev pub held_by : String → Lease → Bool
held_by identity lease = lease.holder_identity == some identity

-- The lease that a replica creates.
unfoldable pub first_lease : String → ℕ → ℕ → Lease
first_lease identity duration time = record {
  holder_identity = some identity;
  lease_duration_seconds = some duration;
  acquire_time = some time;
  renew_time = some time;
  lease_transitions = some 1;
}

-- The lease that a replica writes over the one that it read.
unfoldable pub next_lease : String → ℕ → ℕ → Lease → Lease
next_lease identity duration time lease = record {
  holder_identity = some identity;
  lease_duration_seconds = some duration;
  acquire_time = if held_by identity lease then lease.acquire_time else some time;
  renew_time = some time;
  lease_transitions =
      if held_by identity lease
      then lease.lease_transitions
      else some (or_default 0 lease.lease_transitions + 1);
}

-- `tryAcquireOrRenew` up to its write. An error of the read counts as not acquired in the loop.
unfoldable pub intend : String → ℕ → ℕ → Reading → Intent
unfolding expired first_lease next_lease
intend identity duration time missing = create (first_lease identity duration time)
intend identity duration time unreadable = decline
intend identity duration time (found s) =
    if not (held_by identity s.lease) && not (expired duration time s.lease)
    then decline
    else replace s.version (next_lease identity duration time s.lease)

-- A replica in the loop: `leading`, or not, or after `process.exit(1)`.
pub data Mode : Type 0 where
  following leading exited : Mode

unfoldable pub after_attempt : Mode → Bool → Mode
after_attempt following true = leading
after_attempt following false = following
after_attempt leading true = leading
after_attempt leading false = exited
after_attempt exited acquired = exited
