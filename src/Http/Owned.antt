-- ===== src/Http/Owned.antt =====
-- api.go: who gets to see, or to retry, a request under /requests/.
use sudo_service.Prelude.{
  ℕ, String, List, [], false, not, ◌≡◌, ◌⊎◌, inl, inr, refl, arith, is_empty, ◌===◌, eq_iff,
}
use sudo_service.Types.{SudoRequest, Error, ok, Reply}
use sudo_service.Effects.{M, return, on_reply}
use sudo_service.Retry.Successor.{retry_request}
use sudo_service.Http.Auth.{UserInfo}
use sudo_service.Http.Message.{ApiServer, HttpRequest, Body, Response, with_body, refuse}
use sudo_service.Http.Callers.{find_by_uid, authenticate_bearer}
use sudo_service.Http.Serve.{
  ServeReplies, serve_output, serve_events, serve_subpath, retry_requester, retry_refusal,
  path_parts, or_empty, request_subpath_handler,
}
use sudo_service.Http.Guards.{if_guard, resume_guard, authorized_guard}
use sudo_service.Http.Admitted.{on_result-effects}
use sudo_service.Http.Identity.{
  Vouched, MaySubmit, authenticate_bearer-Vouched, authorize_submit-MaySubmit,
}

-- An error is all that the caller gets, and nothing happens.
abbrev pub Refuses : M Response → Type 0
Refuses m =
    (m.effects ≡ [])
    × ((status : ℕ) × (e : Error) × (m.result ≡ ok (with_body status (Body.refusal e))))

-- Nothing changes, or it is a POST of a retry by one who may submit, and what happens is what
-- retryRequest does in that one's name.
abbrev pub Retries :
    ApiServer → ServeReplies → HttpRequest → UserInfo → SudoRequest → M Response → Type 0
Retries s q r identity sr m =
    (m.effects ≡ [])
    ⊎ ((r.method ≡ "POST")
        × MaySubmit s identity
        × (m.effects ≡ (retry_request s.controller q.retry sr identity.username false).effects))

-- The caller is the requester of the request with the uid in the path, and is served that request.
abbrev pub Owner : ApiServer → ServeReplies → HttpRequest → M Response → Type 0
Owner s q r m =
    (identity : UserInfo) × (sr : SudoRequest) × Vouched s r identity
    × (find_by_uid q.listing (path_parts r).0 ≡ ok sr)
    × (sr.spec.requester ≡ identity.username)
    × (m ≡ serve_subpath s q r identity (or_empty (path_parts r).1) sr)
    × Retries s q r identity sr m

module _ (s : ApiServer) (q : ServeReplies) (r : HttpRequest) (identity : UserInfo)
    (sr : SudoRequest) where
  retry_refusal-quiet : (e : Error) → (retry_refusal e).effects ≡ []
  unfolding retry_refusal
  retry_refusal-quiet (Error.pending_duplicate uid) = refl
  retry_refusal-quiet _ = refl

  retry_requester-Retries : Retries s q r identity sr (retry_requester s q.retry r sr identity)
  unfolding retry_requester
  retry_requester-Retries =
      let P = Retries s q r identity sr in
      if_guard P (not (r.method === "POST")) _ _ (λ _. inl refl)
        λ post.
          authorized_guard P (λ _ _. inl refl) s identity _
            λ allowed. inr (
              (eq_iff r.method "POST").0 (ground (arith, post)),
              authorize_submit-MaySubmit s identity allowed,
              on_result-effects (retry_request s.controller q.retry sr identity.username false) _ _
                  (λ _. refl) retry_refusal-quiet,
            )

  on_reply-quiet :
      (reply : Reply (List ℕ))
      → (on_reply reply
          (λ bytes. return (with_body 200 (Body.output bytes)))
          (λ e. refuse 500 (Error.wrapf "fetch output: %w" [] (Error.api e)))).effects
        ≡ []
  on_reply-quiet (Reply.found bytes) = refl
  on_reply-quiet (Reply.refused e) = refl

  serve_output-quiet : (secret : String → Reply (List ℕ)) → (serve_output secret sr).effects ≡ []
  unfolding serve_output
  serve_output-quiet secret =
      if_guard (λ m. m.effects ≡ []) (is_empty sr.status.output_secret_ref) _ _ (λ _. refl)
        λ _. on_reply-quiet (secret sr.status.output_secret_ref)

  serve_subpath-Retries :
      (subpath : String) → Retries s q r identity sr (serve_subpath s q r identity subpath sr)
  unfolding serve_subpath serve_events
  serve_subpath-Retries subpath =
      let P = Retries s q r identity sr in
      if_guard P (is_empty subpath) _ _ (λ _. inl refl)
        λ _.
          if_guard P (subpath === "retry") _ _ (λ _. retry_requester-Retries)
            λ _.
              if_guard P (subpath === "output") _ _ (λ _. inl (serve_output-quiet q.output))
                λ _.
                  if_guard P (subpath === "events") _ _
                    (λ _. if_guard P (not r.flushes) _ _ (λ _. inl refl) λ _. inl refl)
                    λ _. inl refl

refuses : (status : ℕ) (e : Error) → Refuses (refuse status e)
refuses status e = (refl, (status, e, refl))

-- requestSubpathHandler answers with an error and has no effect, or the caller is vouched for and
-- is the requester of the first listed request of the uid in the path, and what the switch on the
-- rest of the path answers is about that request; it then has no effect unless it is a POST by a
-- caller who may submit, and then its effects are those of retryRequest in the caller's name.
pub request_subpath_handler-Owner :
    (s : ApiServer) (q : ServeReplies) (r : HttpRequest)
    → Refuses (request_subpath_handler s q r) ⊎ Owner s q r (request_subpath_handler s q r)
unfolding request_subpath_handler
request_subpath_handler-Owner s q r =
    let P = λ (m : M Response). Refuses m ⊎ Owner s q r m in
    if_guard P (is_empty (path_parts r).0) _ _ (λ _. inl (refuses _ _))
      λ _.
        resume_guard P (authenticate_bearer s r) _ _
          (λ identity known.
            resume_guard P (find_by_uid q.listing (path_parts r).0) _ _
              (λ sr at.
                if_guard P (not (sr.spec.requester === identity.username)) _ _
                  (λ _. inl (refuses _ _))
                  λ own. inr (
                    identity,
                    sr,
                    authenticate_bearer-Vouched s r identity known,
                    at,
                    (eq_iff sr.spec.requester identity.username).0 (ground (arith, own)),
                    refl,
                    serve_subpath-Retries s q r identity sr (or_empty (path_parts r).1),
                  ))
              λ e _. inl (refuses _ _))
          λ e _. inl (refuses _ _)
