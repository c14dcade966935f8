-- ===== src/Executor/Confined.antt =====
-- What every executor Job is confined to, whatever the request says.
use sudo_service.Prelude.{
  ℕ, String, List, [], ◌∷◌, Option, none, some, Bool, true, false, not, ◌≡◌, ◌≤◌, refl, arith, inl,
  inr, ◌⊎◌, ltb, ◌===◌, if◌then◌else◌,
}
use sudo_service.Types.{ℤ, pos, negsuc, SudoRequest, executor_job_ttl, executor_job_ttl_floor}
use sudo_service.AutoApprove.{AutoApproveRule}
use sudo_service.Executor.Target.{
  executor_namespace, cluster_admin_enabled, executor_service_account, or_true, ttl_seconds,
  owner_ref,
}
use sudo_service.Executor.Manifest.{JobManifest, PodExtras, job_ttl, build_executor_job}

-- The account with API access belongs to the controller's namespace, and a request may decline it;
-- any other Job gets no API token.
abbrev pub Confined : SudoRequest → String → JobManifest → Type 0
Confined sr own m =
    ((m.service_account_name ≡ "sudo-service-executor-sa")
      × ((executor_namespace sr own === own) ≡ true)
      × (or_true sr.spec.cluster_admin ≡ true))
    ⊎ ((m.service_account_name ≡ "default") × (m.automount_service_account_token ≡ some false))

-- Only a Job in the controller's namespace is owned by the request.
abbrev pub OwnedAtHome : String → JobManifest → Type 0
OwnedAtHome own m = ((m.namespace === own) ≡ true) ⊎ (m.owner_references ≡ [])

ttl_seconds_max : (o : Option ℤ) → ttl_seconds o ≤ executor_job_ttl
unfolding ttl_seconds
ttl_seconds_max none = omega arith
ttl_seconds_max (some (negsuc n)) = omega arith
ttl_seconds_max (some (pos n)) = ground arith

job_ttl_bounds :
    (o : Option ℤ)
    → (executor_job_ttl_floor ≤ job_ttl (ttl_seconds o))
      × (job_ttl (ttl_seconds o) ≤ executor_job_ttl)
unfolding job_ttl
job_ttl_bounds o = by_max (ttl_seconds o) (ttl_seconds_max o)
  where
    by_max :
        (n : ℕ)
        → n ≤ executor_job_ttl
        → (executor_job_ttl_floor
            ≤ (if ltb n executor_job_ttl_floor then executor_job_ttl_floor else n))
          × ((if ltb n executor_job_ttl_floor then executor_job_ttl_floor else n)
              ≤ executor_job_ttl)
    by_max n h = (ground arith, ground arith)

-- The account, by the two tests that decide on it.
abbrev account : Bool → String × Option Bool
account b = if b then ("sudo-service-executor-sa", none) else ("default", some false)

by_account :
    (home admin : Bool)
    → (((account (if not home then false else admin)).0 ≡ "sudo-service-executor-sa")
        × (home ≡ true)
        × (admin ≡ true))
      ⊎ (((account (if not home then false else admin)).0 ≡ "default")
          × ((account (if not home then false else admin)).1 ≡ some false))
by_account true true = inl (refl, refl, refl)
by_account true false = inr (refl, refl)
by_account false admin = inr (refl, refl)

owned_or_not :
    (home : Bool) (sr : SudoRequest)
    → (home ≡ true) ⊎ ((if home then owner_ref sr ∷ [] else []) ≡ [])
owned_or_not true sr = inl refl
owned_or_not false sr = inr refl

-- The Job that buildExecutorJob makes for the executor's namespace runs under the account with API
-- access only in the controller's own namespace and if the request does not decline it, and
-- otherwise under the default account with no API token; only a Job in the controller's namespace
-- is owned by the request; and the Job's time to live is between ExecutorJobTTLFloor and
-- ExecutorJobTTL, whatever int32 the request gives.
pub build_executor_job-Confined :
    (shlex_split : String → Option (List String)) (rules : List AutoApproveRule) (sr : SudoRequest)
    (name : String) (extras : PodExtras) (own : String)
    → Confined sr own
        (build_executor_job shlex_split rules sr (executor_namespace sr own) name extras own)
      × OwnedAtHome own
          (build_executor_job shlex_split rules sr (executor_namespace sr own) name extras own)
      × (executor_job_ttl_floor
          ≤ (build_executor_job shlex_split rules sr
              (executor_namespace sr own)
              name
              extras
              own).ttl_seconds_after_finished)
      × ((build_executor_job shlex_split rules sr
            (executor_namespace sr own)
            name
            extras
            own).ttl_seconds_after_finished
          ≤ executor_job_ttl)
unfolding build_executor_job executor_service_account cluster_admin_enabled
build_executor_job-Confined shlex_split rules sr name extras own = (
  by_account (executor_namespace sr own === own) (or_true sr.spec.cluster_admin),
  owned_or_not (executor_namespace sr own === own) sr,
  (job_ttl_bounds sr.spec.ttl_seconds_after_approval).0,
  (job_ttl_bounds sr.spec.ttl_seconds_after_approval).1,
)
