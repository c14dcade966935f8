-- ===== src/Tests/Texts.antt =====
-- The theorems on texts, assessments and commands, at concrete inputs.
use sudo_service.Prelude.{
  String, [], ◌∷◌, none, some, true, false, ◌≡◌, ◌↔◌, refl, trim_right, trim_left, any_char,
  count_fields, contains,
}
use sudo_service.Types.{SudoRequest, Raw, ok, is_ok}
use sudo_service.Profiles.{kubectl_profile}
use sudo_service.Profiles.Preflight.{preflight_command}
use sudo_service.Profiles.Rejects.{Refused, preflight_command_iff}
use sudo_service.Review.Shell.{shell_join}
use sudo_service.Review.Words.{words-shell_join}
use sudo_service.Review.Reader.{words, between}
use sudo_service.Summarizer.{rank_from, PermissionModelResponse, validate_permission_response}
use sudo_service.Summarizer.Accepted.{IsRequest, AreEffects, validate_permission_response-Accepted}
use sudo_service.Controller.{Controller}
use sudo_service.Reconciler.Pending.{PendingReplies, generate_permission_assessment}
use sudo_service.Reconciler.Masked.{generate_permission_assessment_hides}
use sudo_service.Tests.Runs.{pending_replies}
use sudo_service.Tests.Requests.{
  pending_request, controller, shell, request, plain_spec, fresh_status,
}

words-shell_join_example :
    words between (shell_join ("sh" ∷ "-c" ∷ "echo it's" ∷ []))
    ≡ some ("sh" ∷ "-c" ∷ "echo it's" ∷ [])
words-shell_join_example = words-shell_join ("sh" ∷ "-c" ∷ "echo it's" ∷ [])

abbrev response : PermissionModelResponse
response = record {
  request = " list Pods ";
  effects = "READS_SECRET" ∷ "READ_ONLY" ∷ "READS_SECRET" ∷ [];
}

abbrev accepted : PermissionModelResponse
accepted = record { request = "list Pods"; effects = "READ_ONLY" ∷ "READS_SECRET" ∷ [] }

accepts : validate_permission_response response ≡ ok accepted
unfolding validate_permission_response trim_right trim_left any_char count_fields contains rank_from
accepts = refl

validate_permission_response-Accepted_example :
    IsRequest response.request accepted.request × AreEffects response.effects accepted.effects
validate_permission_response-Accepted_example =
    validate_permission_response-Accepted response accepted accepts

preflight_command_iff_example :
    (is_ok (preflight_command shell "kubectl get pods" (some kubectl_profile)) ≡ false)
    ↔ Refused shell "kubectl get pods" (some kubectl_profile)
preflight_command_iff_example =
    preflight_command_iff shell "kubectl get pods" (some kubectl_profile)

abbrev with_secret : String → SudoRequest
with_secret value =
    request
      (record plain_spec {
        env =
            Raw.decodes (record {
              name = "TOKEN";
              value = value;
              secret_key_ref = none;
              secret_key = "";
              config_map_key_ref = none;
              field_ref = none;
              resource_field_ref = none;
            })
            ∷ [];
      })
      fresh_status

-- Waiting for a human, with a token.
abbrev waiting : String → SudoRequest
waiting value = record (with_secret value) { status = pending_request.status }

-- A controller with a model, which accepts every prompt.
abbrev assessing : Controller
assessing = record controller { has_summarizer = true; summarizer_model = "model" }

abbrev answering : PendingReplies
answering = record pending_replies { chat = λ prompt. ok (some (ok response)) }

generate_permission_assessment_hides_example :
    generate_permission_assessment assessing answering (with_secret "one")
    ≡ generate_permission_assessment assessing answering (with_secret "two")
generate_permission_assessment_hides_example =
    generate_permission_assessment_hides assessing answering (with_secret "one") (with_secret "two")
      refl
