-- ===== src/Runs/Slots.antt =====
-- The slots of a parallel run: the poll of its running shards and the refill from its pending ones.
use a5e.Base.{
  String, ℕ, zero, suc, ◌+◌, ◌-◌, ◌≤◌, ◌≡◌, refl, ap, Bool, true, false, ◌&&◌, ◌||◌, Option, none,
  some, List, [], ◌∷◌, arith, tally, inl, inr, ltb, some_of,
}
use a5e.Base.Result.{Result, ok, err}
use a5e.Labels.{or_default}
use a5e.Runs.{RunShardStatus, Run}
use a5e.Runs.Poll.{S3Config}
use a5e.Runs.Shards.{
  PreparedRun, Preparation, requeue, prepared, is_running, is_pending, is_some, polled_shard,
  requeued_shard, start_shard_job, poll_shard_job, poll_if_running, poll_shards,
}
use a5e.Runs.Shards.Steps.{PollStep, StartStep, Started, Pointwise, Pointwise-refl, ended_shard}
use a5e.Runs.Control.{after_start, fill_slots, fill_prepared, refill}
use a5e.Cluster.{Server, Act, now}
use a5e.Effects.Ensures.{
  OkIs, Ensures, Ensures-pure, Ensures-attempt, Ensures-if, Ensures-bind, Ensures-then,
}

-- What a pass over the shards says of itself: it made steps `R`, and none if it reports no change.
abbrev pub Passed :
    (RunShardStatus → RunShardStatus → Type 0)
    → List RunShardStatus
    → List RunShardStatus × Bool
    → Type 0
Passed R xs (ys, changed) = Pointwise R xs ys × (changed ≡ false → ys ≡ xs)

module _ {W : Type 0} (srv : Server W) where
  abbrev PolledOf : RunShardStatus → Option RunShardStatus → Type 0
  PolledOf s r = PollStep s (or_default s r)

  poll_shard_job-PollStep :
      (namespace run_name : String) (s : RunShardStatus) (job : Option String)
      (s3 : Option S3Config) (ttl : ℕ)
      → is_running s ≡ true
      → Ensures (PolledOf s) (poll_shard_job srv namespace run_name s job s3 ttl)
  unfolding poll_shard_job
  poll_shard_job-PollStep namespace run_name s none s3 ttl r = Ensures-pure none (inl refl)
  poll_shard_job-PollStep namespace run_name s (some job) s3 ttl r = Ensures-then _ _ (λ polled.
      Ensures-then (now srv) _
        (λ time. Ensures-pure (polled_shard s time polled) (ended_shard s time polled r)))

  poll_if_running-PollStep :
      (namespace run_name : String) (s : RunShardStatus) (s3 : Option S3Config) (ttl : ℕ)
      → Ensures (PolledOf s) (poll_if_running srv namespace run_name s s3 ttl)
  unfolding poll_if_running
  poll_if_running-PollStep namespace run_name s s3 ttl =
      Ensures-if (is_running s) _ _
        (λ r. poll_shard_job-PollStep namespace run_name s s.job_ref s3 ttl r)
        (λ r. Ensures-pure none (inl refl))

  polled_pass :
      (s : RunShardStatus) (xs ys : List RunShardStatus) (r : Option RunShardStatus)
      (changed : Bool)
      → PolledOf s r
      → Passed PollStep xs (ys, changed)
      → Passed PollStep (s ∷ xs) (or_default s r ∷ ys, is_some r || changed)
  polled_pass s xs ys none changed h (k, u) = ((h, k), λ e. ap (◌∷◌ s) (u e))
  polled_pass s xs ys (some s') changed h (k, u) = ((h, k), λ e. cc)

  pub poll_shards-PollStep :
      (namespace run_name : String) (shards : List RunShardStatus) (s3 : Option S3Config) (ttl : ℕ)
      → Ensures (Passed PollStep shards) (poll_shards srv namespace run_name shards s3 ttl)
  unfolding poll_shards
  poll_shards-PollStep namespace run_name [] s3 ttl = Ensures-pure ([], false) (tt, λ e. refl)
  poll_shards-PollStep namespace run_name (s ∷ shards) s3 ttl =
      Ensures-bind _ _ (poll_if_running-PollStep namespace run_name s s3 ttl) (λ r h.
        Ensures-bind _ _ (poll_shards-PollStep namespace run_name shards s3 ttl)
          (λ (ys, changed) k. Ensures-pure _ (polled_pass s shards ys r changed h k)))

module _ {W : Type 0} (srv : Server W) (runner_image : String) (obj : Run) where
  -- A pass that starts shards in at most `free` slots.
  abbrev pub Filled : ℕ → List RunShardStatus → List RunShardStatus × Bool → Type 0
  Filled free xs (ys, changed) =
      Passed StartStep xs (ys, changed) × (tally is_running ys ≤ tally is_running xs + free)

  Filled-nothing : (free : ℕ) (xs : List RunShardStatus) → Filled free xs (xs, false)
  Filled-nothing free xs = ((Pointwise-refl StartStep xs (λ s. inl refl), λ e. refl), omega arith)

  start_shard_job-Started :
      (prep : PreparedRun) (s : RunShardStatus)
      → is_pending s ≡ true
      → Ensures
          (Started s)
          (start_shard_job srv runner_image obj prep (requeued_shard prep.groups s))
  unfolding start_shard_job requeued_shard
  start_shard_job-Started prep s p =
      Ensures-then _ _
        (λ job. Ensures-then (now srv) _ (λ time. Ensures-pure _ (p, refl, (refl, refl))))

  Filled-start :
      (free : ℕ) (s s' : RunShardStatus) (xs ys : List RunShardStatus) (changed : Bool)
      → Started s s'
      → Filled free xs (ys, changed)
      → Filled (suc free) (s ∷ xs) (s' ∷ ys, true)
  Filled-start free s s' xs ys changed (p, r, same) ((k, u), b) =
      (((inr (p, r, same), k), λ e. cc), rw r (omega (arith, b)))

  Filled-skip :
      (free : ℕ) (s : RunShardStatus) (xs ys : List RunShardStatus) (changed : Bool)
      → Filled free xs (ys, changed)
      → Filled free (s ∷ xs) (s ∷ ys, changed)
  Filled-skip free s xs ys changed ((k, u), b) =
      (((inl refl, k), λ e. ap (◌∷◌ s) (u e)), omega (arith, b))

  Started-rest :
      (prep : PreparedRun) (free : ℕ) (s : RunShardStatus) (shards : List RunShardStatus)
      (r : Result RunShardStatus)
      → OkIs (Started s) r
      → Ensures (Filled free shards) (fill_slots srv runner_image obj prep free shards)
      → Ensures
          (Filled (suc free) (s ∷ shards))
          (after_start s shards (fill_slots srv runner_image obj prep free shards) r)
  unfolding after_start
  Started-rest prep free s shards (err e) h k =
      Ensures-pure _ (Filled-nothing (suc free) (s ∷ shards))
  Started-rest prep free s shards (ok s') h k =
      Ensures-bind _ _ k
        (λ (ys, changed) filled. Ensures-pure _ (Filled-start free s s' shards ys changed h filled))

  pub fill_slots-Filled :
      (prep : PreparedRun) (free : ℕ) (shards : List RunShardStatus)
      → Ensures (Filled free shards) (fill_slots srv runner_image obj prep free shards)
  unfolding fill_slots
  fill_slots-Filled prep zero shards = Ensures-pure _ (Filled-nothing 0 shards)
  fill_slots-Filled prep (suc free) [] = Ensures-pure _ (Filled-nothing (suc free) [])
  fill_slots-Filled prep (suc free) (s ∷ shards) =
      Ensures-if (is_pending s) _ _
        (λ p.
          Ensures-bind {Q = OkIs (Started s)} _ _
            (Ensures-attempt _ (start_shard_job-Started prep s p))
            (λ r h. Started-rest prep free s shards r h (fill_slots-Filled prep free shards)))
        (λ p.
          Ensures-bind _ _ (fill_slots-Filled prep (suc free) shards)
            (λ (ys, changed) k. Ensures-pure _ (Filled-skip (suc free) s shards ys changed k)))

  abbrev pub Refilled : ℕ → List RunShardStatus → List RunShardStatus × Bool → Type 0
  Refilled max_concurrent_runs xs (ys, changed) =
      Passed StartStep xs (ys, changed)
      × (tally is_running xs ≤ max_concurrent_runs → tally is_running ys ≤ max_concurrent_runs)

  refilled :
      (max_concurrent_runs : ℕ) (xs ys : List RunShardStatus) (changed : Bool)
      → Filled (max_concurrent_runs - tally is_running xs) xs (ys, changed)
      → Refilled max_concurrent_runs xs (ys, changed)
  refilled max_concurrent_runs xs ys changed (h, b) = (h, λ k. omega arith)

  Refilled-nothing :
      (max_concurrent_runs : ℕ) (xs : List RunShardStatus)
      → Refilled max_concurrent_runs xs (xs, false)
  Refilled-nothing max_concurrent_runs xs =
      ((Pointwise-refl StartStep xs (λ s. inl refl), λ e. refl), λ k. k)

  fill_prepared-Refilled :
      (max_concurrent_runs : ℕ) (shards : List RunShardStatus) (r : Result Preparation)
      → Ensures (Refilled max_concurrent_runs shards) (
          fill_prepared srv runner_image obj
            (max_concurrent_runs - tally is_running shards)
            shards
            r)
  unfolding fill_prepared
  fill_prepared-Refilled m shards (ok (prepared prep)) = record {
    at = λ t. weaken _ ((fill_slots-Filled prep (m - tally is_running shards) shards).at t);
  }
    where
      weaken :
          (r : Result (List RunShardStatus × Bool))
          → OkIs (Filled (m - tally is_running shards) shards) r
          → OkIs (Refilled m shards) r
      weaken (ok (ys, changed)) h = refilled m shards ys changed h
      weaken (err e) h = tt
  fill_prepared-Refilled m shards (ok requeue) = Ensures-pure _ (Refilled-nothing m shards)
  fill_prepared-Refilled m shards (err e) = Ensures-pure _ (Refilled-nothing m shards)

  pub refill-Refilled :
      (prepare : Act W Preparation) (max_concurrent_runs : ℕ) (shards : List RunShardStatus)
      → Ensures
          (Refilled max_concurrent_runs shards)
          (refill srv runner_image obj prepare max_concurrent_runs shards)
  unfolding refill
  refill-Refilled prepare m shards =
      Ensures-if (ltb 0 (m - tally is_running shards) && some_of is_pending shards) _ _
        (λ e. Ensures-then _ _ (λ r. fill_prepared-Refilled m shards r))
        (λ e. Ensures-pure _ (Refilled-nothing m shards))
