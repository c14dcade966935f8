-- ===== src/Summarizer.antt =====
-- summarizer.go: the assessment that a model writes, and what of it is accepted. The call of the model
-- is a parameter: its answer is an error, no choice, or a message that decodes or not.
pub mod Canonical
pub mod Accepted
pub mod Collected
use sudo_service.Prelude.{
  ℕ, suc, String, List, [], ◌∷◌, ◌++◌, Option, none, some, Bool, true, false, ◌&&◌, ◌||◌, not,
  is_cons, is_empty, ltb, ◌==◌, ◌===◌, if◌then◌else◌, contains, trim_space, any_char, count_fields,
}
use sudo_service.Executor.Manifest.{JobManifest}
use sudo_service.Types.{PermissionAssessment, Error, errorf, wrapf, Result, ok, err, ◌>>=◌, ◌>>◌}

abbrev pub read_only : String
read_only = "READ_ONLY"

abbrev pub permission_effect_order : List String
permission_effect_order =
    read_only ∷ "CHANGES_CLUSTER" ∷ "CREATES_RESOURCE" ∷ "RESTARTS_WORKLOAD" ∷ "DELETES_RESOURCE"
    ∷ "EXPORTS_DATA" ∷ "READS_SECRET" ∷ "USES_CREDENTIALS" ∷ "EXTERNAL_EGRESS" ∷ "HOST_ACCESS"
    ∷ "SECURITY_CONFIG" ∷ "BROAD_SCOPE" ∷ "CLEANUP_INCLUDED" ∷ "NON_DEFAULT_IMAGE" ∷ []

-- permissionEffectSet[effect]: the index in the order, counted from `n`; 0 for an unknown effect.
unfoldable pub rank_from : ℕ → List String → String → ℕ
rank_from n [] effect = 0
rank_from n (x ∷ xs) effect = if x === effect then n else rank_from (suc n) xs effect

abbrev pub rank : String → ℕ
rank effect = rank_from 0 permission_effect_order effect

pub record PermissionModelResponse : Type 0 where
  pub request : String
  pub effects : List String

abbrev pub max_permission_request_words : ℕ
max_permission_request_words = 30

-- The loop over the effects, with those seen so far.
unfoldable pub canonicalize : List String → List String → Result (List String)
canonicalize canonical [] = ok canonical
canonicalize canonical (e ∷ es) =
    let rest = canonicalize (if contains canonical e then canonical else canonical ++ e ∷ []) es in
    if not (contains permission_effect_order e)
    then err (errorf "unknown permission effect %q" (e ∷ []))
    else rest

abbrev pub mutates : List String → Bool
mutates canonical =
    contains canonical "CHANGES_CLUSTER"
    || contains canonical "CREATES_RESOURCE"
    || contains canonical "RESTARTS_WORKLOAD"
    || contains canonical "DELETES_RESOURCE"
    || contains canonical "SECURITY_CONFIG"

unfoldable pub insert_ranked : String → List String → List String
insert_ranked x [] = x ∷ []
insert_ranked x (y ∷ ys) =
    let rest = insert_ranked x ys in if ltb (rank y) (rank x) then y ∷ rest else x ∷ (y ∷ ys)

-- sort.Slice by rank.
unfoldable pub sort_ranked : List String → List String
unfolding insert_ranked
sort_ranked [] = []
sort_ranked (x ∷ xs) = insert_ranked x (sort_ranked xs)

unfoldable pub order_effects : List String → Result (List String)
unfolding sort_ranked
order_effects canonical =
    if contains canonical read_only && mutates canonical
    then err (errorf "READ_ONLY cannot be combined with mutation effects" [])
    else ok (sort_ranked canonical)

unfoldable pub validate_effects : List String → Result (List String)
unfolding canonicalize order_effects
validate_effects effects =
    if not (is_cons effects)
    then err (errorf "permission assessment has no effects" [])
    else canonicalize [] effects >>= order_effects

-- 10 and 13 are the numbers of the newline and of the carriage return.
unfoldable pub validate_request : String → Result (Unit {0})
validate_request request =
    if is_empty request
    then err (errorf "permission request is empty" [])
    else if any_char (λ n. n == 13 || n == 10) request
    then err (errorf "permission request must be one line" [])
    else if ltb max_permission_request_words (count_fields false request)
    then err (errorf "permission request has %d words; maximum is %d" [])
    else ok tt

unfoldable pub validate_permission_response :
    PermissionModelResponse → Result PermissionModelResponse
unfolding validate_effects validate_request
validate_permission_response result = do
  validate_request (trim_space result.request)
  effects ← validate_effects result.effects
  ok (record { request = trim_space result.request; effects = effects })

-- The effective pod that the model is shown, as its manifest or as text, if the request has extras.
pub data Context : Type 0 where
  no_context : Context
  pod_context : JobManifest → Context
  text_context : String → Context

-- What the messages to the model are made of, apart from constants.
pub record Prompt : Type 0 where
  pub command : String
  pub image : String
  pub reason : String
  pub extras : Context

-- The first choice of the model's answer, if there is one; its content decodes or not.
abbrev pub ChatReply : Type 0
ChatReply = Result (Option (Result PermissionModelResponse))

unfoldable pub first_choice : ChatReply → Result PermissionModelResponse
first_choice (Result.err e) = err e
first_choice (Result.ok none) = err (errorf "summarizer returned no choices" [])
first_choice (Result.ok (some (Result.err e))) =
    err (wrapf "decode structured permission assessment: %w" [] e)
first_choice (Result.ok (some (Result.ok response))) = ok response

-- The versions of the schema and of the prompt are constants.
unfoldable pub summarize : String → ChatReply → ℕ → Result PermissionAssessment
unfolding first_choice validate_permission_response
summarize model reply now = do
  response ← first_choice reply
  result ← validate_permission_response response
  ok (record {
    request = result.request;
    effects = result.effects;
    model = model;
    generated_at = now;
  })
