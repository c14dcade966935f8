-- ===== src/Reconciler/Masked.antt =====
-- reconciler.go: what of a request can reach the model that assesses it.
use sudo_service.Prelude.{none, ◌≡◌, sym, ap, ◌∙◌, if◌then◌else◌}
use sudo_service.Types.{SudoRequest}
use sudo_service.Controller.{Controller, controller_namespace}
use sudo_service.Profiles.{image_for, resolve_executor_profile}
use sudo_service.Summarizer.{Context, summarize}
use sudo_service.Review.Extras.{redacted_value}
use sudo_service.Review.Revalued.{revalued, has_spec_extras-revalued}
use sudo_service.Review.Redacted.{spec_extras_text-revalued}
use sudo_service.Review.Displayed.{display_pod_template-revalued}
use sudo_service.Reconciler.Pending.{
  PendingReplies, assessment_of, context_of, ai_context, prompt_of, generate_permission_assessment,
}

-- The request with the values that redactPodEnv masks masked.
abbrev pub masked_part : SudoRequest → SudoRequest
masked_part sr = revalued redacted_value sr

ai_context-masked :
    (c : Controller) (sr : SudoRequest) → ai_context c (masked_part sr) ≡ ai_context c sr
unfolding ai_context
ai_context-masked c sr = λ i.
    if has_spec_extras-revalued redacted_value sr i
    then context_of
        (display_pod_template-revalued c.shlex_split c.rules sr (controller_namespace c) i)
        (spec_extras_text-revalued redacted_value sr (controller_namespace c) i)
    else Context.no_context

prompt_of-masked :
    (c : Controller) (sr : SudoRequest) → prompt_of c (masked_part sr) ≡ prompt_of c sr
unfolding prompt_of image_for resolve_executor_profile
prompt_of-masked c sr = λ i. record (prompt_of c sr) { extras = ai_context-masked c sr i }

-- Whatever the model answers to what it is shown, generatePermissionAssessment gives the same
-- assessment or error for two requests that are equal once the values that redactPodEnv masks are
-- masked, in the executor's variables and in those of init containers: no masked value reaches the
-- model, neither by the displayed pod nor by the text that stands in for it.
pub generate_permission_assessment_hides :
    (c : Controller) (r : PendingReplies) (sr sr' : SudoRequest)
    → masked_part sr ≡ masked_part sr'
    → generate_permission_assessment c r sr ≡ generate_permission_assessment c r sr'
unfolding generate_permission_assessment
generate_permission_assessment_hides c r sr sr' h =
    let shown = sym (prompt_of-masked c sr) ∙ (ap (prompt_of c) h ∙ prompt_of-masked c sr') in
    ap
      (λ p.
        if c.has_summarizer
        then assessment_of (summarize c.summarizer_model (r.chat p) r.assessed_at)
        else (none, none))
      shown
