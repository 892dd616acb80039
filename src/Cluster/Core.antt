-- ===== src/Cluster/Core.antt =====
-- packages/operator/src/k8s/core.ts: the wrapper's operations on Jobs and Pods.
use a5e.Base.{ℕ, String, some, List, ◌==◌, option_eq, nat_eq, string_eq, if◌then◌else◌}
use a5e.Jobs.{Job}
use a5e.Cluster.{
  Server, Act, Pod, JobState, create_namespaced_job, read_namespaced_job, read_job_state,
  patch_job_ttl, delete_namespaced_job, list_pods, read_pod_log, call, throw, try_catch,
}

module _ {W : Type 0} (srv : Server W) where
  -- `createJob`: on a conflict the Job that exists is read instead. The reply is the Job's name.
  unfoldable pub create_job : String → Job → Act W String
  create_job namespace job = try_catch (call srv (create_namespaced_job namespace job)) (λ e.
      if e.code == some 409
      then (if job.name == "" then throw e else call srv (read_namespaced_job namespace job.name))
      else throw e)

  unfoldable pub get_job : String → String → Act W JobState
  get_job namespace name = call srv (read_job_state namespace name)

  unfoldable pub patch_job : String → String → ℕ → Act W Unit
  patch_job namespace name ttl = call srv (patch_job_ttl namespace name ttl)

  unfoldable pub delete_job : String → String → Act W Unit
  delete_job namespace name = call srv (delete_namespaced_job namespace name)

  unfoldable pub list_pods_for_job : String → String → Act W (List Pod)
  list_pods_for_job namespace job_name = call srv (list_pods namespace job_name)

  unfoldable pub get_pod_log : String → String → String → Act W String
  get_pod_log namespace pod container = call srv (read_pod_log namespace pod container)
