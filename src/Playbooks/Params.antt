-- ===== src/Playbooks/Params.antt =====
-- playbooks.go: the parameters of the one playbook, its canonical command, and the checks on a
-- request that names it.
use sudo_service.Prelude.{
  String, [], ◌∷◌, Option, none, some, ◌||◌, not, lookup, length, is_empty, ◌==◌, ◌===◌,
  if◌then◌else◌, text_append,
}
use sudo_service.Types.{Playbook, SudoRequest, errorf, Result, ok, err, ◌>>=◌}
use sudo_service.Executor.Target.{has_pod_spec_extras}
use sudo_service.Controller.{Controller}

abbrev pub terminal_job_cleanup_playbook : String
terminal_job_cleanup_playbook = "job.cleanup-terminal/v1"

abbrev pub playbook_name : Option Playbook → String
playbook_name none = ""
playbook_name (some p) = p.name

unfoldable pub check_names : Controller → Option String → Option String → Result (String × String)
check_names c (some namespace) (some name) =
    if not (c.is_dns_label namespace)
    then err (errorf "playbook namespace %q is invalid: %s" (namespace ∷ []))
    else if not (c.is_dns_subdomain name)
    then err (errorf "playbook Job name %q is invalid: %s" (name ∷ []))
    else ok (namespace, name)
check_names c _ _ = err (
    errorf "playbook %s requires exactly namespace and name parameters"
      (terminal_job_cleanup_playbook ∷ []))

-- The namespace and the name of the Job, by the playbook that the request names.
unfoldable pub cleanup_parameters : Controller → Option Playbook → Result (String × String)
unfolding check_names
cleanup_parameters c none = err (errorf "unsupported playbook %q" ("" ∷ []))
cleanup_parameters c (some p) =
    if not (p.name === terminal_job_cleanup_playbook)
    then err (errorf "unsupported playbook %q" (p.name ∷ []))
    else if not (length p.parameters == 2)
    then err (
        errorf "playbook %s requires exactly namespace and name parameters (got %v)"
          (terminal_job_cleanup_playbook ∷ []))
    else check_names c (lookup "namespace" p.parameters) (lookup "name" p.parameters)

abbrev pub terminal_job_cleanup_parameters : Controller → SudoRequest → Result (String × String)
terminal_job_cleanup_parameters c sr = cleanup_parameters c sr.spec.playbook

unfoldable pub terminal_job_cleanup_command : String → String → String
terminal_job_cleanup_command namespace name = text_append "kubectl delete job " (
    text_append name
      (text_append " -n " (text_append namespace " --ignore-not-found=true --wait=false")))

unfoldable pub check_rendering : SudoRequest → String → String → Result (Unit {0})
check_rendering sr namespace name =
    if not (sr.spec.command === terminal_job_cleanup_command namespace name)
    then err (
        errorf "playbook command must equal canonical rendering %q"
          (terminal_job_cleanup_command namespace name ∷ []))
    else if not (is_empty sr.spec.image) || not (is_empty sr.spec.profile) || has_pod_spec_extras sr
    then err (
        errorf
          "playbook requests cannot set image, profile, namespace, stdin, env, volumes, init containers, image pull secrets, or privilege overrides"
          [])
    else ok tt

unfoldable pub validate_playbook : Controller → SudoRequest → Option Playbook → Result (Unit {0})
unfolding check_rendering
validate_playbook c sr none = ok tt
validate_playbook c sr (some p) = do
  (namespace, name) ← cleanup_parameters c (some p)
  check_rendering sr namespace name

abbrev pub validate_playbook_spec : Controller → SudoRequest → Result (Unit {0})
validate_playbook_spec c sr = validate_playbook c sr sr.spec.playbook
