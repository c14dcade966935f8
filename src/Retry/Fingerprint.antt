-- ===== src/Retry/Fingerprint.antt =====
-- retry.go: executionFingerprint and findPendingDuplicate. The canonical JSON and its digest are a
-- parameter; marshalling a spec does not fail.
use sudo_service.Prelude.{
  String, List, [], ◌∷◌, Option, none, some, Bool, false, ◌&&◌, ◌||◌, not, is_empty, ◌===◌,
  if◌then◌else◌,
}
use sudo_service.Types.{
  pos, SudoRequest, SudoRequestSpec, Phase, is_unset, is_pending, is_approved, Result, ok, err,
  default_post_approval, configured_controller_namespace,
}
use sudo_service.Profiles.{default_executor_profile, resolve_executor_profile}
use sudo_service.Controller.{Controller}

abbrev pub or_default : {A : Type 0} → A → Option A → A
or_default a none = a
or_default a (some b) = b

-- The fields that have an effect, each default written out.
unfoldable pub effective_spec : SudoRequestSpec → String → SudoRequestSpec
effective_spec spec own =
    let ns = if is_empty spec.target_namespace then own else spec.target_namespace in
    record spec {
      requester = "";
      reason = "";
      submitted_by = "";
      retry_of_uid = "";
      profile =
          if is_empty spec.image && is_empty spec.profile
          then default_executor_profile
          else spec.profile;
      target_namespace = ns;
      ttl_seconds_after_approval =
          some (or_default (pos default_post_approval) spec.ttl_seconds_after_approval);
      cluster_admin = some (or_default (ns === own) spec.cluster_admin);
    }

unfoldable pub resolved_image : SudoRequest → SudoRequestSpec → Result String
resolved_image sr effective =
    if is_empty sr.status.resolved_image
    then (elim (resolve_executor_profile (record sr { spec = effective })) [
      | Result.err e ↦ err e
      | Result.ok p ↦ ok p.1
    ])
    else ok sr.status.resolved_image

-- The digest of the spec with the image, where the image resolves.
unfoldable pub digest_of : Controller → SudoRequestSpec → Result String → Result String
digest_of c effective (Result.err e) = err e
digest_of c effective (Result.ok image) = ok (c.fingerprint effective image)

unfoldable pub execution_fingerprint : Controller → SudoRequest → String → Result String
unfolding resolved_image digest_of
execution_fingerprint c sr namespace =
    let effective = effective_spec sr.spec (configured_controller_namespace namespace) in
    digest_of c effective (resolved_image sr effective)

abbrev pub is_open : Phase → Bool
is_open p = is_unset p || is_pending p || is_approved p

abbrev pub is_digest : String → Result String → Bool
is_digest want (Result.ok got) = got === want
is_digest want (Result.err e) = false

-- The first open request of the same requester with the same digest.
unfoldable pub first_duplicate :
    Controller → String → SudoRequest → String → List SudoRequest → Option SudoRequest
first_duplicate c namespace candidate want [] = none
first_duplicate c namespace candidate want (current ∷ rest) =
    let later = first_duplicate c namespace candidate want rest in
    if not (is_open current.status.phase)
      || not (current.spec.requester === candidate.spec.requester)
    then later
    else if is_digest want (execution_fingerprint c current namespace)
    then some current
    else later
