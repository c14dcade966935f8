-- ===== src/AutoApprove.antt =====
-- auto_approve.go: the allowlist of commands that need no human. `shlex_split` stands for
-- shlex.Split of github.com/google/shlex, `none` being its error.
pub mod Rules
use sudo_service.Prelude.{
  String, List, [], ◌∷◌, Option, none, some, Bool, true, false, ◌&&◌, not, length, is_cons,
  is_empty, leb, ◌==◌, ◌===◌, if◌then◌else◌,
}
use sudo_service.Profiles.{default_executor_image}

pub record AutoApproveRule : Type 0 where
  pub exact : List String
  pub prefix : List String
  pub image : String

abbrev pub expected_image : AutoApproveRule → String
expected_image rule = if is_empty rule.image then default_executor_image else rule.image

-- The comparison loop: `tokens[i] != want[i]` for each index of `want`. The length tests before it
-- keep the index in range.
unfoldable pub same_at : List String → List String → Bool
same_at tokens [] = true
same_at [] (w ∷ want) = false
same_at (t ∷ tokens) (w ∷ want) = if t === w then same_at tokens want else false

unfoldable pub matches_exact : List String → List String → Bool
matches_exact tokens exact = is_cons exact && length tokens == length exact && same_at tokens exact

unfoldable pub matches_prefix : List String → List String → Bool
matches_prefix tokens prefix =
    is_cons prefix && leb (length prefix) (length tokens) && same_at tokens prefix

unfoldable pub matches_rule : List String → String → AutoApproveRule → Bool
matches_rule tokens req_image rule =
    if not (req_image === expected_image rule)
    then false
    else if matches_exact tokens rule.exact
    then true
    else matches_prefix tokens rule.prefix

unfoldable pub first_match : List AutoApproveRule → List String → String → Option (List String)
first_match [] tokens req_image = none
first_match (rule ∷ rules) tokens req_image =
    if matches_rule tokens req_image rule then some tokens else first_match rules tokens req_image

unfoldable pub match_tokens :
    List AutoApproveRule → Option (List String) → String → Option (List String)
match_tokens rules none req_image = none
match_tokens rules (some []) req_image = none
match_tokens rules (some (t ∷ ts)) req_image = first_match rules (t ∷ ts) req_image

unfoldable pub get_auto_approve_parsed_command :
    (String → Option (List String)) → List AutoApproveRule → String → String → Option (List String)
unfolding match_tokens
get_auto_approve_parsed_command shlex_split rules command req_image =
    match_tokens rules (shlex_split command) req_image
