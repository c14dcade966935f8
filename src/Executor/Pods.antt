-- ===== src/Executor/Pods.antt =====
-- executor.go: what the pod of an executor Job says about it. Times are nanoseconds, and zero is
-- the zero time.
use sudo_service.Prelude.{
  ℕ, ◌+◌, ◌*◌, String, List, [], ◌∷◌, ◌++◌, Option, none, some, Bool, true, false, ◌&&◌, ◌||◌, any,
  is_empty, ltb, ◌==◌, ◌===◌, if◌then◌else◌, text_append,
}
use sudo_service.Types.{
  ℤ, pos, negsuc, api, errorf, wrapf, Reply, found, refused, Result, ok, err, second,
  executor_start_deadline,
}
use sudo_service.Cluster.{Job, Pod, ContainerStatus, Waiting}
use sudo_service.Executor.Target.{is_set}

unfoldable pub is_controlled_by : Job → Pod → Bool
is_controlled_by job pod = elim pod.controller_uid [ none ↦ false | some u ↦ u === job.uid ]

-- The first listed pod that the Job controls.
unfoldable pub job_pod : Job → List Pod → Option Pod
unfolding is_controlled_by
job_pod job [] = none
job_pod job (pod ∷ pods) = if is_controlled_by job pod then some pod else job_pod job pods

-- getJobPod, by the answer of the uncached list of pods.
unfoldable pub get_job_pod : Job → Reply (List Pod) → Result (Option Pod)
get_job_pod job (refused e) = err (wrapf "list job pods: %w" [] (api e))
get_job_pod job (found pods) = ok (job_pod job pods)

unfoldable pub executor_container_terminated : Pod → Bool
executor_container_terminated pod =
    any (λ cs. cs.name === "executor" && is_set cs.terminated) pod.container_statuses

unfoldable pub executor_started : Pod → Bool
executor_started pod =
    any (λ cs. cs.name === "executor" && (cs.running || is_set cs.terminated))
      pod.container_statuses

unfoldable pub describe_waiting : Waiting → String
describe_waiting w =
    if is_empty w.message then w.reason else text_append w.reason (text_append ": " w.message)

-- The loop over all statuses; a later waiting container overwrites an earlier one.
unfoldable pub wait_reason_from : String → List ContainerStatus → String
unfolding describe_waiting
wait_reason_from reason [] = reason
wait_reason_from reason (cs ∷ rest) =
    wait_reason_from
      (elim cs.waiting [
        | none ↦ reason
        | some w ↦ if is_empty w.reason then reason else describe_waiting w
      ])
      rest

unfoldable pub pod_wait_reason : Pod → String
unfolding wait_reason_from
pod_wait_reason pod =
    wait_reason_from "pod pending" (pod.init_container_statuses ++ pod.container_statuses)

-- The latest finish among init containers that have all finished, or `start`.
unfoldable pub latest_init_finish : ℕ → ℕ → List ContainerStatus → ℕ
latest_init_finish start latest [] = if latest == 0 then start else latest
latest_init_finish start latest (cs ∷ rest) =
    let next = λ (t : ℕ). latest_init_finish start (if ltb latest t then t else latest) rest in
    elim cs.terminated [ none ↦ start | some t ↦ next t.finished_at ]

unfoldable pub executor_wait_start : Pod → Job → ℕ
executor_wait_start pod job =
    latest_init_finish job.creation_timestamp 0 pod.init_container_statuses

-- Whether the deadline passed at time `now`, and why the pod waits.
unfoldable pub executor_start_timed_out : ℕ → Job → Option Pod → Bool × String
executor_start_timed_out now job none =
    (ltb (job.creation_timestamp + executor_start_deadline * second) now, "no pod scheduled")
executor_start_timed_out now job (some pod) = if executor_started pod then (false, "") else (
  ltb (executor_wait_start pod job + executor_start_deadline * second) now,
  pod_wait_reason pod,
)

abbrev pub is_nonzero : ℤ → Bool
is_nonzero (pos n) = if n == 0 then false else true
is_nonzero (negsuc n) = true

unfoldable pub terminated_executor : List ContainerStatus → Option ℤ
terminated_executor [] = none
terminated_executor (cs ∷ rest) =
    let later = terminated_executor rest in
    elim cs.terminated [
      | none ↦ later
      | some t ↦ if cs.name === "executor" then some t.exit_code else later
    ]

unfoldable pub failed_init : List ContainerStatus → Option (String × ℤ)
failed_init [] = none
failed_init (cs ∷ rest) =
    let later = failed_init rest in
    elim cs.terminated [
      | none ↦ later
      | some t ↦ if is_nonzero t.exit_code then some (cs.name, t.exit_code) else later
    ]

unfoldable pub report_init : Option (String × ℤ) → Result (String × ℤ)
report_init none = err (errorf "no terminated container to report yet" [])
report_init (some r) = ok r

-- The container whose logs and exit code are reported.
unfoldable pub container_to_report : Pod → Result (String × ℤ)
unfolding report_init
container_to_report pod = elim (terminated_executor pod.container_statuses) [
  | some code ↦ ok ("executor", code)
  | none ↦ report_init (failed_init pod.init_container_statuses)
]
