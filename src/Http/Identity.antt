-- ===== src/Http/Identity.antt =====
-- auth.go and api.go: who an accepted caller is. Each check is read as what was asked of whom, and what
-- the answer said.
use sudo_service.Prelude.{
  ℕ, String, List, [], ◌∷◌, Option, none, some, true, false, not, ◌≡◌, inl, inr, refl, ap, arith,
  Any, is_empty, is_cons, contains, if◌then◌else◌,
}
use sudo_service.Types.{Error, Result, ok, err, Reply, found, refused}
use sudo_service.Controller.{controller_namespace}
use sudo_service.Reconciler.Once.{constant_time_equal_iff}
use sudo_service.Http.Auth.{
  HumanClaims, UserInfo, TokenReviewStatus, AccessReview, AccessStatus, verify, review,
  submit_review, authorize_submit,
}
use sudo_service.Http.Message.{ApiServer, HttpRequest}
use sudo_service.Http.Callers.{
  requester_token_audience, bearer_token, authenticate_bearer, jwt_candidates, first_verified,
  no_jwt, authenticate_human, validate_csrf,
}

-- The API server's TokenReview of the caller's own bearer token, for this service's audience, says who
-- the caller is.
abbrev pub Vouched : ApiServer → HttpRequest → UserInfo → Type 0
Vouched s r identity =
    (token : String) × (st : TokenReviewStatus) × (bearer_token r.authorization ≡ ok token)
    × (s.token_review token (requester_token_audience ∷ []) ≡ found st)
    × (st.authenticated ≡ true)
    × (contains st.audiences requester_token_audience ≡ true)
    × (is_empty identity.username ≡ false)
    × (st.user ≡ identity)

-- The API server's SubjectAccessReview of that identity allows sudorequests/submit.
abbrev pub MaySubmit : ApiServer → UserInfo → Type 0
MaySubmit s identity =
    (st : AccessStatus) × (s.access_review
        (submit_review (controller_namespace s.controller) identity)
      ≡ found st)
    × (st.allowed ≡ true)

-- Some JWT of the request verifies, with these claims.
abbrev pub Verified : ApiServer → HttpRequest → HumanClaims → Type 0
Verified s r claims = Any (λ raw. s.id_token raw ≡ ok (ok claims)) (jwt_candidates r)

-- The cookie and the form carry one and the same token.
abbrev pub SameToken : Option (List ℕ) → List ℕ → Type 0
SameToken cookie token = (cookie ≡ some token) × (is_cons token ≡ true)

status_vouches :
    (st : TokenReviewStatus) (audience : String) (identity : UserInfo)
    → (if not st.authenticated
        then Result.err (Error.errorf "TokenReview: not authenticated: %s" (st.error ∷ []))
        else if not (contains st.audiences audience)
        then err (Error.errorf "TokenReview: token missing required audience %q" (audience ∷ []))
        else if is_empty st.user.username
        then err (Error.errorf "TokenReview: authenticated response has no username" [])
        else ok st.user)
      ≡ ok identity
    → (st.authenticated ≡ true)
      × (contains st.audiences audience ≡ true)
      × (is_empty identity.username ≡ false)
      × (st.user ≡ identity)
status_vouches st audience identity h = (ground arith, ground arith, ground arith, ground arith)

review_inv :
    (ask : String → List String → Reply TokenReviewStatus) (token audience : String)
    (identity : UserInfo)
    → review ask token audience ≡ ok identity
    → (st : TokenReviewStatus) × (ask token (audience ∷ []) ≡ found st)
      × (st.authenticated ≡ true)
      × (contains st.audiences audience ≡ true)
      × (is_empty identity.username ≡ false)
      × (st.user ≡ identity)
unfolding review
review_inv ask token audience identity h = split (ask token (audience ∷ [])) refl
  where
    split :
        (a : Reply TokenReviewStatus)
        → ask token (audience ∷ []) ≡ a
        → (st : TokenReviewStatus) × (ask token (audience ∷ []) ≡ found st)
          × (st.authenticated ≡ true)
          × (contains st.audiences audience ≡ true)
          × (is_empty identity.username ≡ false)
          × (st.user ≡ identity)
    split (refused e) g = ground (arith, g, h)
    split (found st) g = (
      st,
      g,
      ground (arith, g, h),
      ground (arith, g, h),
      ground (arith, g, h),
      ground (arith, g, h),
    )

pub authenticate_bearer-Vouched :
    (s : ApiServer) (r : HttpRequest) (identity : UserInfo)
    → authenticate_bearer s r ≡ ok identity
    → Vouched s r identity
unfolding authenticate_bearer
authenticate_bearer-Vouched s r identity h = split (bearer_token r.authorization) refl
  where
    split : (t : Result String) → bearer_token r.authorization ≡ t → Vouched s r identity
    split (err e) g = ground (arith, g, h)
    split (ok token) g =
        let v =
          review_inv s.token_review token requester_token_audience identity
            (ground (arith, g, h)) in
        (token, v.0, g, v.1, v.2, v.3, v.4, v.5)

pub authorize_submit-MaySubmit :
    (s : ApiServer) (identity : UserInfo)
    → authorize_submit s.access_review (controller_namespace s.controller) identity ≡ ok true
    → MaySubmit s identity
unfolding authorize_submit
authorize_submit-MaySubmit s identity h = split (s.access_review asked) refl
  where
    asked : AccessReview
    asked = submit_review (controller_namespace s.controller) identity

    split : (a : Reply AccessStatus) → s.access_review asked ≡ a → MaySubmit s identity
    split (refused e) g = ground (arith, g, h)
    split (found st) g = (st, g, ground (arith, g, h))

verify-eq :
    (t : Result (Result HumanClaims)) (claims : HumanClaims)
    → verify t ≡ ok claims
    → t ≡ ok (ok claims)
unfolding verify
verify-eq (err e) claims h = ground arith
verify-eq (ok (err e)) claims h = ground arith
verify-eq (ok (ok c)) claims h = ground arith

first_verified-Any :
    (ask : String → Result (Result HumanClaims)) (last : Error) (raws : List String)
    (claims : HumanClaims)
    → first_verified ask last raws ≡ ok claims
    → Any (λ raw. ask raw ≡ ok (ok claims)) raws
unfolding first_verified
first_verified-Any ask last [] claims h = ground arith
first_verified-Any ask last (raw ∷ rest) claims h =
    split (verify (ask raw)) refl (λ e. first_verified-Any ask e rest claims)
  where
    split :
        (v : Result HumanClaims)
        → verify (ask raw) ≡ v
        → ((e : Error)
            → first_verified ask e rest ≡ ok claims
            → Any (λ raw. ask raw ≡ ok (ok claims)) rest)
        → Any (λ raw. ask raw ≡ ok (ok claims)) (raw ∷ rest)
    split (ok c) g later = inl (verify-eq (ask raw) claims (ground (arith, g, h)))
    split (err e) g later = inr (later e (ground (arith, g, h)))

pub authenticate_human-Verified :
    (s : ApiServer) (r : HttpRequest) (claims : HumanClaims)
    → authenticate_human s r ≡ ok claims
    → Verified s r claims
unfolding authenticate_human
authenticate_human-Verified s r claims h =
    first_verified-Any s.id_token no_jwt (jwt_candidates r) claims (ground (arith, h))

pub validate_csrf-SameToken :
    (cookie : Option (List ℕ)) (token : List ℕ)
    → validate_csrf cookie token ≡ ok tt
    → SameToken cookie token
unfolding validate_csrf
validate_csrf-SameToken none token h = ground arith
validate_csrf-SameToken (some c) token h =
    (ap some ((constant_time_equal_iff c token).0 (ground (arith, h))), ground (arith, h))
