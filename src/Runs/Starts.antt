-- ===== src/Runs/Starts.antt =====
-- How a parallel run starts: which shards run at once, and what is written to the run's status.
use a5e.Base.{
  String, ℕ, ◌+◌, ◌≤◌, ◌≡◌, refl, sym, subst, ◌∙◌, Bool, true, false, ◌||◌, Option, none, some,
  List, [], ◌∷◌, ◌++◌, append-nil, append_assoc, tally, tally-append, some_of, if◌then◌else◌, arith,
  ltb, ltb→lt, ltb→le, inl, inr, ◌⊎◌,
}
use a5e.Sharding.{HostShard, shard_hosts}
use a5e.Runs.{running, succeeded, RunShardStatus, RunStatus, Run, ParallelConfig}
use a5e.Runs.Status.{merged_status}
use a5e.Runs.Shards.{
  PreparedRun, is_running, is_pending, pending_shard, start_shards, start_shard_job,
}
use a5e.Runs.Control.{run_shards, run_cut, start_parallel_run}
use a5e.Runs.Writes.{patch_status-Emits, start_shard_job-Emits}
use a5e.Cluster.{Server, now, pure}
use a5e.Effects.Ensures.{
  Ensures, Ensures-pure, Ensures-if, Ensures-bind, Ensures-then, Ensures-weaken,
}
use a5e.Cluster.Writes.{Writes, NoStatus, Emits-Writes, Emits-mono}
use a5e.Effects.Emits.{
  Emits, Emits-pure, Emits-throw, Emits-now, Emits-bind, Emits-bind_ensured, Emits-if,
}

-- The status of a shard that the start of its run makes: its number and hosts, running or pending.
abbrev pub Opens : HostShard → RunShardStatus → Type 0
Opens shard s =
    (s.index ≡ shard.index)
    × (s.hosts ≡ shard.host_names)
    × ((is_running s ≡ true) × (is_pending s ≡ false)
        ⊎ (is_running s ≡ false) × (is_pending s ≡ true))

abbrev pub OpensAll : List HostShard → List RunShardStatus → Type 0
OpensAll [] [] = Unit
OpensAll [] (s ∷ ss) = ⊥
OpensAll (shard ∷ shards) [] = ⊥
OpensAll (shard ∷ shards) (s ∷ ss) = Opens shard s × OpensAll shards ss

-- No more shards run than may, and one waits only where as many run as may.
abbrev pub FullWhileWaiting : ℕ → List RunShardStatus → Type 0
FullWhileWaiting max_concurrent_runs ss =
    (tally is_running ss ≤ max_concurrent_runs)
    × (some_of is_pending ss ≡ true → tally is_running ss ≡ max_concurrent_runs)

some_of-append :
    (p : RunShardStatus → Bool) (xs : List RunShardStatus) (y : RunShardStatus)
    → some_of p (xs ++ (y ∷ [])) ≡ some_of p xs || p y
some_of-append p [] y = ground arith
some_of-append p (x ∷ xs) y = ground (arith, some_of-append p xs y)

tally_running :
    (xs : List RunShardStatus) (s : RunShardStatus)
    → is_running s ≡ true
    → tally is_running (xs ++ (s ∷ [])) ≡ tally is_running xs + 1
tally_running xs s r = tally-append is_running xs (s ∷ []) ∙ rw r (omega arith)

tally_waiting :
    (xs : List RunShardStatus) (s : RunShardStatus)
    → is_running s ≡ false
    → tally is_running (xs ++ (s ∷ [])) ≡ tally is_running xs
tally_waiting xs s r = tally-append is_running xs (s ∷ []) ∙ rw r (omega arith)

waits_before :
    (xs : List RunShardStatus) (s : RunShardStatus)
    → is_pending s ≡ false
    → some_of is_pending (xs ++ (s ∷ [])) ≡ true
    → some_of is_pending xs ≡ true
waits_before xs s p e = ground (arith, some_of-append is_pending xs s)

-- One more shard starts where a slot is free, and waits where none is.
full_running :
    (m : ℕ) (xs : List RunShardStatus) (s : RunShardStatus)
    → ltb (tally is_running xs) m ≡ true
    → is_running s ≡ true
    → is_pending s ≡ false
    → FullWhileWaiting m xs
    → FullWhileWaiting m (xs ++ (s ∷ []))
full_running m xs s free r p (b, w) = (
  omega (arith, tally_running xs s r, ltb→lt (tally is_running xs) m free),
  λ e. omega (arith, w (waits_before xs s p e), ltb→lt (tally is_running xs) m free),
)

full_pending :
    (m : ℕ) (xs : List RunShardStatus) (s : RunShardStatus)
    → ltb (tally is_running xs) m ≡ false
    → is_running s ≡ false
    → FullWhileWaiting m xs
    → FullWhileWaiting m (xs ++ (s ∷ []))
full_pending m xs s free r (b, w) =
    let e = tally_waiting xs s r in
    let most = ltb→le (tally is_running xs) m free in (omega arith, λ h. omega arith)

module _ {W : Type 0} (srv : Server W) (runner_image : String) (obj : Run)
    (prep : PreparedRun) where
  -- From statuses made so far to all of them.
  abbrev Opened : ℕ → List RunShardStatus → List HostShard → List RunShardStatus → Type 0
  Opened m before shards all =
      (new : List RunShardStatus) × (all ≡ before ++ new)
      × OpensAll shards new
      × FullWhileWaiting m all

  abbrev NextStatus : ℕ → List RunShardStatus → HostShard → RunShardStatus → Type 0
  NextStatus m before shard s = Opens shard s × FullWhileWaiting m (before ++ (s ∷ []))

  start_shard_job-Opens :
      (shard : HostShard)
      → Ensures
          (λ s.
            (s.index ≡ shard.index)
            × (s.hosts ≡ shard.host_names)
            × (is_running s ≡ true)
            × (is_pending s ≡ false))
          (start_shard_job srv runner_image obj prep shard)
  unfolding start_shard_job
  start_shard_job-Opens shard =
      Ensures-then _ _
        (λ job. Ensures-then (now srv) _ (λ time. Ensures-pure _ (refl, refl, refl, refl)))

  next_status :
      (m : ℕ) (before : List RunShardStatus) (shard : HostShard)
      → FullWhileWaiting m before
      → Ensures (NextStatus m before shard) (
          if ltb (tally is_running before) m
          then start_shard_job srv runner_image obj prep shard
          else pure (pending_shard shard))
  next_status m before shard full =
      Ensures-if (ltb (tally is_running before) m) _ _
        (λ free.
          Ensures-weaken _ (start_shard_job-Opens shard)
            (λ s (i, h, r, p). ((i, h, inl (r, p)), full_running m before s free r p full)))
        (λ free. Ensures-pure _ (
          (refl, refl, inr (refl, refl)),
          full_pending m before (pending_shard shard) free refl full,
        ))

  Opened-next :
      (m : ℕ) (before : List RunShardStatus) (shard : HostShard) (shards : List HostShard)
      (s : RunShardStatus) (all : List RunShardStatus)
      → NextStatus m before shard s
      → Opened m (before ++ (s ∷ [])) shards all
      → Opened m before (shard ∷ shards) all
  Opened-next m before shard shards s all (o, f) (new, e, os, full) =
      (s ∷ new, e ∙ append_assoc before (s ∷ []) new, (o, os), full)

  start_shards-Opened :
      (m : ℕ) (shards : List HostShard) (before : List RunShardStatus)
      → FullWhileWaiting m before
      → Ensures (Opened m before shards) (start_shards srv runner_image obj prep m shards before)
  unfolding start_shards
  start_shards-Opened m [] before full = Ensures-pure before ([], sym (append-nil before), tt, full)
  start_shards-Opened m (shard ∷ shards) before full =
      Ensures-bind _ _ (next_status m before shard full) (λ s n.
        Ensures-weaken _ (start_shards-Opened m shards (before ++ (s ∷ [])) n.1)
          (λ all o. Opened-next m before shard shards s all n o))

  start_shards-Emits :
      (m : ℕ) (shards : List HostShard) (before : List RunShardStatus)
      → Emits NoStatus (start_shards srv runner_image obj prep m shards before)
  unfolding start_shards
  start_shards-Emits m [] before = Emits-pure _
  start_shards-Emits m (shard ∷ shards) before =
      Emits-bind _ _
        (Emits-if (ltb (tally is_running before) m) _ _
          (λ e. start_shard_job-Emits srv runner_image obj prep shard) (λ e. Emits-pure _))
        (λ s. start_shards-Emits m shards (before ++ (s ∷ [])))

  -- What the start of a run over `cut` shards writes.
  abbrev pub StartOver : ℕ → List HostShard → RunStatus → Type 0
  StartOver m cut status =
      (ss : List RunShardStatus) × (status.shards ≡ some ss)
      × OpensAll cut ss
      × FullWhileWaiting m ss
      × (status.phase ≡ some (elim cut [ [] ↦ succeeded | shard ∷ shards ↦ running ]))

  abbrev empty_patch : String → RunStatus → RunStatus
  empty_patch time s = record s {
    start_time = some time;
    completion_time = some time;
    resolved_inventory_config_map_ref = some prep.inventory_config_map_name;
    shards = some [];
  }

  abbrev started_patch : List RunShardStatus → String → RunStatus → RunStatus
  started_patch statuses time s = record s {
    start_time = some time;
    resolved_inventory_config_map_ref = some prep.inventory_config_map_name;
    shards = some statuses;
  }

  empty_write :
      (m : ℕ) (time again : String)
      → StartOver m [] (merged_status obj (empty_patch time) (some succeeded) none again)
  unfolding merged_status
  empty_write m time again = ([], refl, tt, (omega arith, λ e. ground arith), refl)

  started_write :
      (m : ℕ) (shard : HostShard) (shards : List HostShard) (all : List RunShardStatus)
      (time again : String)
      → Opened m [] (shard ∷ shards) all
      → StartOver m
          (shard ∷ shards)
          (merged_status obj (started_patch all time) (some running) none again)
  unfolding merged_status
  started_write m shard shards all time again (new, e, o, full) =
      (all, refl, subst (OpensAll (shard ∷ shards)) (sym e) o, full, refl)

  run_shards-StartOver :
      (m : ℕ) (cut : List HostShard)
      → Emits (Writes (StartOver m cut)) (run_shards srv runner_image obj prep m cut)
  unfolding run_shards
  run_shards-StartOver m [] = Emits-bind _ _ (Emits-now srv) (λ time.
      Emits-bind _ _
        (patch_status-Emits srv runner_image obj _ (empty_patch time) (some succeeded) none
          (λ again. empty_write m time again))
        (λ _. Emits-pure _))
  run_shards-StartOver m (shard ∷ shards) =
      Emits-bind_ensured _ _ (Emits-Writes _ _ (start_shards-Emits m (shard ∷ shards) []))
        (start_shards-Opened m (shard ∷ shards) [] (omega arith, λ e. ground arith))
        (λ all o. Emits-bind _ _ (Emits-now srv) (λ time.
          Emits-bind _ _
            (patch_status-Emits srv runner_image obj _ (started_patch all time) (some running) none
              (λ again. started_write m shard shards all time again o))
            (λ _. Emits-pure _)))

  abbrev pub StartWrite : ParallelConfig → RunStatus → Type 0
  StartWrite parallel status =
      (cut : List HostShard) × (shard_hosts prep.groups parallel.max_amount_of_hosts ≡ some cut)
      × StartOver parallel.max_concurrent_runs cut status

  run_cut-StartWrite :
      (parallel : ParallelConfig) (r : Option (List HostShard))
      → shard_hosts prep.groups parallel.max_amount_of_hosts ≡ r
      → Emits
          (Writes (StartWrite parallel))
          (run_cut srv runner_image obj prep parallel.max_concurrent_runs r)
  unfolding run_cut
  run_cut-StartWrite parallel none e = Emits-throw _
  run_cut-StartWrite parallel (some cut) e =
      Emits-mono _ (run_shards-StartOver parallel.max_concurrent_runs cut) (λ status h. (cut, e, h))

  -- Each status that the start of a parallel run writes has one status for each shard of the
  -- hosts, in the order of the shards, with the shard's number and host names; each is running or
  -- pending, at most `max_concurrent_runs` are running, and one is pending only where that many
  -- are running; and the phase is `Running`, or `Succeeded` where there are no hosts.
  pub start_parallel_run-StartOver :
      (parallel : ParallelConfig)
      → Emits (Writes (StartWrite parallel)) (start_parallel_run srv runner_image obj prep parallel)
  unfolding start_parallel_run
  start_parallel_run-StartOver parallel =
      run_cut-StartWrite parallel (shard_hosts prep.groups parallel.max_amount_of_hosts) refl
