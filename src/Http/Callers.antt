-- ===== src/Http/Callers.antt =====
-- api.go: how the handlers find out who asks, and for which request.
use sudo_service.Prelude.{
  ℕ, String, List, [], ◌∷◌, ◌++◌, Option, none, some, ◌||◌, not, is_empty, is_cons, has_prefix,
  ◌===◌, if◌then◌else◌, trim_space, trim_prefix,
}
use sudo_service.Types.{
  SudoRequest, Error, errorf, wrapf, api, not_found, Result, ok, err, Reply, pending_request_ttl,
}
use sudo_service.Reconciler.Token.{constant_time_equal}
use sudo_service.Http.Auth.{HumanClaims, UserInfo, verify, review}
use sudo_service.Http.Message.{ApiServer, HttpRequest}

abbrev pub requester_token_audience : String
requester_token_audience = "sudo-service.andrewgarrett.dev"

unfoldable pub bearer_token : String → Result String
bearer_token authorization =
    if not (has_prefix authorization "Bearer ")
    then err (errorf "missing bearer token" [])
    else let token = trim_space (trim_prefix authorization "Bearer ") in
      if is_empty token then err (errorf "empty bearer token" []) else ok token

unfoldable pub authenticate_bearer : ApiServer → HttpRequest → Result UserInfo
unfolding bearer_token
authenticate_bearer s r = elim (bearer_token r.authorization) [
  | Result.err e ↦ err e
  | Result.ok token ↦ review s.token_review token requester_token_audience
]

unfoldable pub first_with_uid : String → List SudoRequest → Result SudoRequest
first_with_uid uid [] = err (api not_found)
first_with_uid uid (sr ∷ rest) = if sr.uid === uid then ok sr else first_with_uid uid rest

-- findByUID of the API server; the reconciler's answers with a plain error.
unfoldable pub find_by_uid : Reply (List SudoRequest) → String → Result SudoRequest
unfolding first_with_uid
find_by_uid (Reply.refused e) uid = err (api e)
find_by_uid (Reply.found items) uid = first_with_uid uid items

-- The texts that may be a JWT, in the order in which they are tried.
unfoldable pub jwt_candidates : HttpRequest → List String
jwt_candidates r =
    (if not (is_empty r.id_token_header) then r.id_token_header ∷ [] else [])
    ++ (if not (is_empty r.access_token_header) then r.access_token_header ∷ [] else [])
    ++ (if has_prefix r.authorization "Bearer "
        then trim_prefix r.authorization "Bearer " ∷ []
        else [])

-- The loop over the candidates; `last` is the error so far.
unfoldable pub first_verified :
    (String → Result (Result HumanClaims)) → Error → List String → Result HumanClaims
first_verified ask last [] = err (wrapf "JWT verification failed: %w" [] last)
first_verified ask last (raw ∷ rest) = elim (verify (ask raw)) [
  | Result.ok claims ↦ ok claims
  | Result.err e ↦ first_verified ask e rest
]

abbrev pub no_jwt : Error
no_jwt = errorf "no JWT in request" []

unfoldable pub authenticate_human : ApiServer → HttpRequest → Result HumanClaims
unfolding first_verified jwt_candidates
authenticate_human s r =
    if not (is_cons (jwt_candidates r))
    then err no_jwt
    else first_verified s.id_token no_jwt (jwt_candidates r)

unfoldable pub validate_csrf : Option (List ℕ) → List ℕ → Result (Unit {0})
validate_csrf none form_token = err (errorf "missing CSRF cookie" [])
validate_csrf (some cookie) form_token =
    if not (is_cons cookie)
    then err (errorf "missing CSRF cookie" [])
    else if not (is_cons form_token) || not (constant_time_equal cookie form_token)
    then err (errorf "invalid CSRF token" [])
    else ok tt

-- The token of the cookie if there is one, else a random one.
unfoldable pub csrf_token_for : Option (List ℕ) → Result (List ℕ) → Result (List ℕ)
csrf_token_for none random = random
csrf_token_for (some cookie) random = if is_cons cookie then ok cookie else random

-- ensureCSRFCookie: the cookie that is set, and the token or the error.
unfoldable pub ensure_csrf_cookie : Option (List ℕ) → Result (List ℕ) → Option (List ℕ × ℕ)
ensure_csrf_cookie cookie random = elim (csrf_token_for cookie random) [
  | Result.ok token ↦ some (token, pending_request_ttl)
  | Result.err e ↦ none
]

-- `claims.PreferredUsername`, or else `claims.Subject`.
abbrev pub actor_of : HumanClaims → String
actor_of claims =
    if is_empty claims.preferred_username then claims.subject else claims.preferred_username
