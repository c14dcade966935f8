-- ===== src/Reconciler/Notified.antt =====
-- reconciler.go: what of a request the approval notification shows.
use sudo_service.Prelude.{
  String, List, [], ◌∷◌, Bool, true, false, ◌||◌, not, is_empty, ◌===◌, ◌≡◌, if◌then◌else◌,
  text_append,
}
use sudo_service.Types.{SudoRequest, Result, ok, err, Reply, found, refused}
use sudo_service.Cluster.{Secret}
use sudo_service.Effects.{Effect, push}
use sudo_service.Controller.{Controller}
use sudo_service.Profiles.{image_for, profile_for}
use sudo_service.Reconciler.Token.{constant_time_equal}
use sudo_service.Reconciler.Deliver.{
  DeliverReplies, submitted_by_for, line, warning_lines, notification_body,
}

abbrev pub is_push : Effect → Bool
is_push (push title body link) = true
is_push _ = false

-- The notifications among the effects.
abbrev pub pushes : List Effect → List Effect
pushes [] = []
pushes (e ∷ es) = let rest = pushes es in if is_push e then e ∷ rest else rest

abbrev IsSilent : Effect → Type 0
IsSilent e = is_push e ≡ false

-- The notification that is sent under a link.
abbrev notification : Controller → SudoRequest → String → List Effect
notification c sr link =
    push (text_append "sudo: permission requested by " sr.spec.requester) (notification_body c sr)
      link
    ∷ []

-- The notification of each branch.
abbrev of_link : (String → List Effect) → Result String → List Effect
of_link k (ok link) = k link
of_link k (err e) = []

abbrev of_secret : (Secret → List Effect) → Reply Secret → List Effect
of_secret k (found secret) = k secret
of_secret k (refused e) = []

abbrev token_differs : Controller → SudoRequest → String → Bool
token_differs c sr token =
    is_empty token || not (constant_time_equal (c.sha256_hex token) sr.status.approval_token_hash)

abbrev expected : Controller → DeliverReplies → SudoRequest → List Effect
expected c r sr =
    if is_empty sr.status.approval_token_secret_name
    then []
    else of_secret
        (λ secret.
          if token_differs c sr secret.content
          then []
          else of_link (notification c sr) (c.approval_link sr.uid secret.content))
        r.secret

-- notificationBody, over its two parts that read what a value of a variable could change.
abbrev body_with : Controller → SudoRequest → String → String → String
body_with c sr aid extras =
    let actor = submitted_by_for sr in
    text_append aid (
      text_append (text_append "reason: " sr.spec.reason) (
        text_append (text_append "\ncommand: " sr.spec.command) (
          text_append (text_append "\nimage: " (image_for sr)) (
            text_append (line "\nprofile: " (profile_for sr)) (
              text_append (warning_lines sr.status.preflight_warnings) (
                text_append (line "\nretry of: " sr.spec.retry_of_uid) (
                  text_append
                    (if not (actor === sr.spec.requester)
                      then text_append "\nresubmitted by: " actor
                      else "")
                    (line "\n" extras))))))))
