-- ===== src/Http/Auth.antt =====
-- auth.go: the identities that an HTTP handler trusts. The verification of a JWT against the realm's
-- keys, the TokenReview and the SubjectAccessReview are functions of the server that is asked.
use sudo_service.Prelude.{
  String, List, [], ◌∷◌, Bool, true, false, ◌||◌, ◌&&◌, not, is_empty, ◌===◌, if◌then◌else◌,
  contains, text_append, trim_prefix,
}
use sudo_service.Types.{api, errorf, wrapf, Result, ok, err, Reply}

pub record HumanClaims : Type 0 where
  pub subject : String
  pub preferred_username : String
  pub email : String
  pub groups : List String

-- authv1.UserInfo.
pub record UserInfo : Type 0 where
  pub username : String
  pub uid : String
  pub groups : List String
  pub extra : List (String × List String)

-- The fields of TokenReviewStatus that the code reads.
pub record TokenReviewStatus : Type 0 where
  pub authenticated : Bool
  pub audiences : List String
  pub user : UserInfo
  pub error : String

-- authorizationv1.SubjectAccessReviewSpec with its ResourceAttributes.
pub record AccessReview : Type 0 where
  pub user : UserInfo
  pub namespace : String
  pub verb : String
  pub group : String
  pub version : String
  pub resource : String
  pub subresource : String

pub record AccessStatus : Type 0 where
  pub allowed : Bool
  pub reason : String
  pub evaluation_error : String

-- oidc.IDTokenVerifier.Verify gives a token, whose claims decode or not.
unfoldable pub verify : Result (Result HumanClaims) → Result HumanClaims
verify (Result.err e) = err e
verify (Result.ok (Result.err e)) = err (wrapf "decode claims: %w" [] e)
verify (Result.ok (Result.ok c)) = ok c

-- `g` itself, or `g` behind a slash.
abbrev pub is_group : String → String → Bool
is_group g x = x === g || x === text_append "/" g || trim_prefix x "/" === g

unfoldable pub is_in_group_list : String → List String → Bool
is_in_group_list g [] = false
is_in_group_list g (x ∷ xs) = if is_group g x then true else is_in_group_list g xs

abbrev pub is_in_group : HumanClaims → String → Bool
is_in_group c g = is_in_group_list g c.groups

unfoldable pub review :
    (String → List String → Reply TokenReviewStatus) → String → String → Result UserInfo
review ask token audience = elim (ask token (audience ∷ [])) [
  | Reply.refused e ↦ err (wrapf "TokenReview: %w" [] (api e))
  | Reply.found st ↦
      if not st.authenticated
      then err (errorf "TokenReview: not authenticated: %s" (st.error ∷ []))
      else if not (contains st.audiences audience)
      then err (errorf "TokenReview: token missing required audience %q" (audience ∷ []))
      else if is_empty st.user.username
      then err (errorf "TokenReview: authenticated response has no username" [])
      else ok st.user
]

-- What AuthorizeSubmit asks about an identity.
abbrev pub submit_review : String → UserInfo → AccessReview
submit_review controller_namespace identity = record {
  user = identity;
  namespace = controller_namespace;
  verb = "create";
  group = "sudo.andrewgarrett.dev";
  version = "v1alpha1";
  resource = "sudorequests";
  subresource = "submit";
}

unfoldable pub authorize_submit :
    (AccessReview → Reply AccessStatus) → String → UserInfo → Result Bool
authorize_submit ask controller_namespace identity =
    elim (ask (submit_review controller_namespace identity)) [
      | Reply.refused e ↦ err (wrapf "SubjectAccessReview: %w" [] (api e))
      | Reply.found st ↦
          if not st.allowed && not (is_empty st.evaluation_error)
          then err (errorf "SubjectAccessReview evaluation: %s" (st.evaluation_error ∷ []))
          else ok st.allowed
    ]
