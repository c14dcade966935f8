-- ===== src/Retry/Creating.antt =====
-- retry.go: what a successor that is created has passed.
use sudo_service.Prelude.{
  String, List, [], Option, none, some, Bool, true, not, ◌≡◌, refl, arith, is_empty, if◌then◌else◌,
}
use sudo_service.Types.{Reply, SudoRequest, is_terminal_phase, Error, ok, is_not_found, errorf, api}
use sudo_service.Effects.{fail}
use sudo_service.Controller.{Controller, controller_namespace}
use sudo_service.Validation.{validate_spec_extras}
use sudo_service.Playbooks.Params.{validate_playbook_spec}
use sudo_service.Profiles.Preflight.{preflight_command}
use sudo_service.Profiles.{resolve_and_preflight}
use sudo_service.Reconciler.New.{error_of}
use sudo_service.Reconciler.Checks.{all-none, error_of-ok}
use sudo_service.Lifecycle.Rules.{Each, Each-if, Each-if_eq, Each-on_reply}
use sudo_service.Retry.Successor.{
  RetryReplies, requester_retryable, retry_error, preflight_error, successor_of, retry_request,
  adopt_retry_successor,
}
use sudo_service.Retry.Fresh.{IsFresh}
use sudo_service.Retry.Linking.{OnLink, Links, Submits, adopt_links, submit_links}

preflight_error-none : (o : Option Error) → preflight_error o ≡ none → o ≡ none
preflight_error-none none h = refl
preflight_error-none (some e) h = ground (arith, h)

retry_error-none :
    (c : Controller) (s : SudoRequest)
    → retry_error c s ≡ none
    → (error_of (resolve_and_preflight (preflight_command c.shell) s) ≡ none)
      × (c.syntax_error s.spec.command ≡ none)
      × (validate_spec_extras s (controller_namespace c) ≡ ok tt)
      × (validate_playbook_spec c s ≡ ok tt)
unfolding retry_error
retry_error-none c s h =
    let each =
      all-none (preflight_error (error_of (resolve_and_preflight (preflight_command c.shell) s)))
        (c.syntax_error s.spec.command) (error_of (validate_spec_extras s (controller_namespace c)))
        (error_of (validate_playbook_spec c s)) h in
    (
      preflight_error-none (error_of (resolve_and_preflight (preflight_command c.shell) s)) each.0,
      each.1,
      error_of-ok (validate_spec_extras s (controller_namespace c)) each.2,
      error_of-ok (validate_playbook_spec c s) each.3,
    )

submits :
    (c : Controller) (listing : Reply (List SudoRequest)) (source : SudoRequest)
    (submitted_by : String) (admin : Bool)
    → (if admin
        then is_terminal_phase source.status.phase
        else requester_retryable source.status.phase)
      ≡ true
    → is_empty source.status.superseded_by_uid ≡ true
    → IsFresh c listing (successor_of c source submitted_by)
    → retry_error c (successor_of c source submitted_by) ≡ none
    → Submits c listing source submitted_by admin (successor_of c source submitted_by)
submits c listing source submitted_by admin eligible single f h =
    let passed = retry_error-none c (successor_of c source submitted_by) h in
    (eligible, single, refl, f, passed.0, passed.1, passed.2, passed.3)

-- For every configuration and all answers of the API server, retryRequest creates a request only if
-- the source is in a phase that its caller may submit again and has no successor on record, and
-- only if it read the list of requests and no open one in it has the same requester and execution
-- fingerprint; the request then is the source's spec under the name made from the source's uid,
-- with the source as its origin, and it passes the preflight, the syntax check and the validation
-- of its fields and of its playbook. Every status write of retryRequest is of an object with the
-- source's uid and without a successor, and sets nothing but the successor.
pub retry_request-Submits :
    (c : Controller) (r : RetryReplies) (source : SudoRequest) (submitted_by : String)
    (admin : Bool)
    → Each
        (OnLink (Links source) (Submits c r.listing source submitted_by admin))
        (retry_request c r source submitted_by admin)
unfolding retry_request
retry_request-Submits c r source submitted_by admin =
    let C = Submits c r.listing source submitted_by admin in
    let P = OnLink (Links source) C in
    Each-if P (is_empty source.uid) (fail (errorf "source request has no UID" [])) _ tt (
      Each-if_eq P
        (not (
          if admin
          then is_terminal_phase source.status.phase
          else requester_retryable source.status.phase))
        _ _ (λ _. tt)
        λ eligible.
          Each-on_reply P r.existing (adopt_retry_successor c r.link source) _
            (adopt_links c source C r.link)
            λ e. Each-if P (not (is_not_found e)) (fail (api e)) _ tt (
              Each-if_eq P (not (is_empty source.status.superseded_by_uid)) _ _ (λ _. tt)
                λ single. submit_links c source C r (successor_of c source submitted_by) (λ f.
                  submits c r.listing source submitted_by admin (ground (arith, eligible))
                    (ground (arith, single)) f)))
