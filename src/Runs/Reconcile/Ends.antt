-- ===== src/Runs/Reconcile/Ends.antt =====
-- `reconcileRun` of a run that is to be cancelled.
use a5e.Base.{
  String, true, false, ◌≡◌, refl, ap, sym, ◌∙◌, Option, none, some, List, [], ◌∷◌, ◌++◌,
  append_assoc, append-nil, map,
}
use a5e.Base.Result.{Result, ok, err}
use a5e.Labels.{or_default}
use a5e.Runs.{
  RunPhase, pending, resolving, running, succeeded, failed, error, cancelled, RunShardStatus,
  RunStatus, Run,
}
use a5e.Runs.Status.{is_terminal, status_of, patch_status, merged_status, Override}
use a5e.Runs.Poll.{S3Config}
use a5e.Runs.Shards.{Preparation, ReconcileResult, done}
use a5e.Runs.Reconcile.{
  reconcile_run, reconcile_phase, cancel_run, delete_if_any, delete_shard_jobs,
}
use a5e.Cluster.{
  Server, Act, Trace, Call, delete_namespaced_job, patch_run_status, call, now, pure, attempt,
  continue, ◌>>=◌, ◌>>◌,
}
use a5e.Cluster.Core.{delete_job}

-- The Jobs that a status names: the run's own, then those of its shards.
abbrev pub job_list : Option String → List String
job_list none = []
job_list (some job) = job ∷ []

abbrev pub shard_jobs : List RunShardStatus → List String
shard_jobs [] = []
shard_jobs (shard ∷ shards) = job_list shard.job_ref ++ shard_jobs shards

abbrev pub jobs_of : RunStatus → List String
jobs_of status = job_list status.job_ref ++ shard_jobs (or_default [] status.shards)

abbrev pub deletes : String → List String → List Call
deletes namespace jobs = map (delete_namespaced_job namespace) jobs

deletes-append :
    (namespace : String) (xs ys : List String)
    → deletes namespace (xs ++ ys) ≡ deletes namespace xs ++ deletes namespace ys
deletes-append namespace [] ys = refl
deletes-append namespace (x ∷ xs) ys =
    ap (◌∷◌ (delete_namespaced_job namespace x)) (deletes-append namespace xs ys)

module _ {W : Type 0} where
  -- An action that returns and makes these calls, whatever the server answers.
  record Sends {A : Type 0} (cs : List Call) (m : Act W A) : Type 0 where
    at : (t : Trace W) → (a : A) × ((m t).0 ≡ ok a) × ((m t).1.calls ≡ t.calls ++ cs)

  Sends-nothing : {A : Type 0} → (a : A) → Sends [] (pure {W = W} a)
  unfolding pure
  Sends-nothing a = record { at = λ t. (a, refl, sym (append-nil t.calls)) }

  Sends-first :
      {A B : Type 0}
      → (cs ds : List Call) (m : Act W A) (f : A → Act W B) → Sends cs m
      → ((a : A) → Sends ds (f a))
      → Sends (cs ++ ds) (m >>= f)
  unfolding ◌>>=◌
  Sends-first cs ds m f h k = record {
    at = λ t.
        let (a, e, c) = h.at t in
        let (b, e', c') = (k a).at (m t).1 in
        (b, rw e e', rw e (c' ∙ (ap (λ l. l ++ ds) c ∙ append_assoc t.calls cs ds)));
  }

  -- The calls after some that were sent.
  ends_with :
      {A B : Type 0}
      → (cs : List Call) (P : List Call → Type 0) (m : Act W A) (f : A → Act W B) (t : Trace W)
      → Sends cs m
      → ((a : A) (u : Trace W)
          → (new : List Call) × ((f a u).1.calls ≡ u.calls ++ new) × P (cs ++ new))
      → (new : List Call) × (((m >>= f) t).1.calls ≡ t.calls ++ new) × P new
  unfolding ◌>>=◌
  ends_with cs P m f t h k =
      let (a, e, c) = h.at t in
      let (new, c', p) = k a (m t).1 in
      (cs ++ new, rw e (c' ∙ (ap (λ l. l ++ new) c ∙ append_assoc t.calls cs new)), p)

module _ {W : Type 0} (srv : Server W) (runner_image : String) (obj : Run) where
  delete_if_any-Sends :
      (job : Option String)
      → Sends (deletes obj.namespace (job_list job)) (delete_if_any srv runner_image obj job)
  unfolding delete_if_any delete_job ◌>>=◌ attempt call pure
  delete_if_any-Sends none = Sends-nothing tt
  delete_if_any-Sends (some job) = record { at = λ t. (tt, refl, refl) }

  delete_shard_jobs-Sends :
      (shards : List RunShardStatus)
      → Sends
          (deletes obj.namespace (shard_jobs shards))
          (delete_shard_jobs srv runner_image obj shards)
  unfolding delete_shard_jobs
  delete_shard_jobs-Sends [] = Sends-nothing tt
  delete_shard_jobs-Sends (shard ∷ shards) =
      rw (deletes-append obj.namespace (job_list shard.job_ref) (shard_jobs shards)) (
        Sends-first _ _ _ _ (delete_if_any-Sends shard.job_ref)
          (λ _. delete_shard_jobs-Sends shards))

  -- The calls of a cancellation: each Job is deleted, then the phase `Cancelled` is written.
  abbrev pub Cancels : List String → List Call → Type 0
  Cancels jobs new =
      (status : RunStatus) × (new
        ≡ deletes obj.namespace jobs ++ (patch_run_status obj.namespace obj.name status ∷ []))
      × (status.phase ≡ some cancelled)

  cancel_calls :
      (mine others : List String) (call : Call)
      → deletes obj.namespace mine ++ (deletes obj.namespace others ++ (call ∷ []))
        ≡ deletes obj.namespace (mine ++ others) ++ (call ∷ [])
  cancel_calls mine others call =
      sym (append_assoc (deletes obj.namespace mine) (deletes obj.namespace others) (call ∷ []))
      ∙ ap (λ l. l ++ (call ∷ [])) (sym (deletes-append obj.namespace mine others))

  continue-pure :
      {A B : Type 0}
      → (r : Result A) (b : B) (u : Trace W) → (continue {W = W} r (λ _. pure b) u).1 ≡ u
  unfolding pure
  continue-pure (ok a) b u = refl
  continue-pure (err e) b u = refl

  -- The last call of a reconcile that writes a status and returns.
  pub patch_last :
      (patch : RunStatus → RunStatus) (phase : Option RunPhase) (override : Option Override)
      (result : ReconcileResult) (t : Trace W)
      → ((patch_status srv obj patch phase override >> pure result) t).1.calls
        ≡ t.calls
          ++ (patch_run_status obj.namespace obj.name
                (merged_status obj patch phase override (srv.clock t.world))
              ∷ [])
  unfolding patch_status ◌>>=◌ now call
  patch_last patch phase override result t = ap (λ u. u.calls) (continue-pure _ result _)

  cancelled_write :
      (status : RunStatus) (v : Trace W)
      → (new : List Call) × (((do
        time ← now srv
        patch_status srv obj (λ s. record s { completion_time = some time }) (some cancelled) none
        pure done)
            v).1.calls
          ≡ v.calls ++ new)
        × Cancels (jobs_of status) (
            deletes obj.namespace (job_list status.job_ref)
            ++ (deletes obj.namespace (shard_jobs (or_default [] status.shards)) ++ new))
  unfolding now ◌>>=◌ merged_status
  cancelled_write status v = (
    _,
    patch_last (λ s. record s { completion_time = some (srv.clock v.world) }) (some cancelled) none
        done v,
    (
      merged_status obj (λ s. record s { completion_time = some (srv.clock v.world) })
          (some cancelled) none (srv.clock v.world),
      cancel_calls (job_list status.job_ref) (shard_jobs (or_default [] status.shards)) _,
      refl,
    ),
  )

  cancel_run-Cancels :
      (status : RunStatus) (t : Trace W)
      → (new : List Call) × ((cancel_run srv runner_image obj status t).1.calls ≡ t.calls ++ new)
        × Cancels (jobs_of status) new
  unfolding cancel_run
  cancel_run-Cancels status t =
      let mine = deletes obj.namespace (job_list status.job_ref) in
      ends_with mine (Cancels (jobs_of status)) _ _ t (delete_if_any-Sends status.job_ref) (λ _ u.
        ends_with (deletes obj.namespace (shard_jobs (or_default [] status.shards)))
          (λ new. Cancels (jobs_of status) (mine ++ new)) _ _ u
          (delete_shard_jobs-Sends (or_default [] status.shards)) (λ _ v. cancelled_write status v))

  cancelling :
      (s3_config : Option S3Config) (prepare : Act W Preparation) (status : RunStatus)
      (phase : RunPhase)
      → is_terminal phase ≡ false
      → reconcile_phase srv runner_image obj s3_config prepare status true (some phase)
        ≡ cancel_run srv runner_image obj status
  unfolding reconcile_phase is_terminal
  cancelling s3_config prepare status pending h = refl
  cancelling s3_config prepare status resolving h = refl
  cancelling s3_config prepare status running h = refl
  cancelling s3_config prepare status succeeded h = cc
  cancelling s3_config prepare status failed h = cc
  cancelling s3_config prepare status error h = cc
  cancelling s3_config prepare status cancelled h = cc

  -- A run with a phase that is not final, and with `cancel` set, is cancelled: whatever the server
  -- answers, one reconcile asks it to delete each Job that the status names, the run's own and
  -- then those of its shards in order, and then writes a status with the phase `Cancelled`; it
  -- makes no other call.
  pub reconcile_run-Cancels :
      (s3_config : Option S3Config) (prepare : Act W Preparation) (phase : RunPhase) (t : Trace W)
      → obj.spec.cancel ≡ some true
      → (status_of obj).phase ≡ some phase
      → is_terminal phase ≡ false
      → (new : List Call) × ((reconcile_run srv runner_image obj s3_config prepare t).1.calls
          ≡ t.calls ++ new)
        × Cancels (jobs_of (status_of obj)) new
  unfolding reconcile_run
  reconcile_run-Cancels s3_config prepare phase t c p h =
      rw (c, p, cancelling s3_config prepare (status_of obj) phase h)
        (cancel_run-Cancels (status_of obj) t)
