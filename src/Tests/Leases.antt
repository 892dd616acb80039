-- ===== src/Tests/Leases.antt =====
-- Two replicas of packages/operator/src/k8s/leader-election.ts on one lease.
use a5e.Base.{
  ◌+◌, ◌*◌, ◌<◌, ◌≡◌, ◌≢◌, refl, ap, true, false, ◌==◌, option_eq, string_eq, some, arith,
}
use a5e.Leases.{Stored, found, intend, next_lease, expired, following, leading, after_attempt}
use a5e.Leases.Steps.{
  idle, read_at, World, set, reads_found, replaced, Step, read, write, Reach, start, step,
}
use a5e.Leases.Takeover.{takeover_after_expiry}

abbrev stale : Stored
stale = record {
  lease = record {
    holder_identity = some "pod-a";
    lease_duration_seconds = some 15;
    acquire_time = some 1000;
    renew_time = some 4000;
    lease_transitions = some 1;
  };
  version = 7;
}

abbrev before_read : World
before_read = record {
  stored = some stale;
  clock = 20000;
  locals = λ i. idle;
  modes = λ i. following;
}

abbrev before_write : World
before_write = record before_read {
  locals = set "pod-b" (read_at (found stale) 20000) before_read.locals;
}

abbrev taken : Stored
taken = record {
  lease = record {
    holder_identity = some "pod-b";
    lease_duration_seconds = some 15;
    acquire_time = some 20000;
    renew_time = some 20000;
    lease_transitions = some 2;
  };
  version = 8;
}

abbrev after_write : World
after_write = record {
  stored = some taken;
  clock = 20000;
  locals = set "pod-b" idle before_write.locals;
  modes = set "pod-b" leading before_write.modes;
}

other_holder : stale.lease.holder_identity ≢ taken.lease.holder_identity
other_holder e = let same : false ≡ true = ap (λ o. o == some "pod-b") e in cc

reached : Reach 15 before_write
reached =
    step before_read before_write (start before_read (λ i. refl))
      (read "pod-b" (found stale) (λ e. cc) refl (reads_found stale refl) refl)

takes : Step 15 before_write after_write
unfolding intend next_lease expired after_attempt
takes =
    write "pod-b" (found stale) 20000 (some taken) true refl
      (replaced stale taken.lease 8 refl refl (omega arith) refl refl) refl

takeover_after_expiry_example : 4000 + 15 * 1000 < 20000
takeover_after_expiry_example =
    takeover_after_expiry 15 before_write after_write stale taken reached takes refl refl
      other_holder
