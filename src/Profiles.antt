-- ===== src/Profiles.antt =====
-- profiles.go: the catalogue of executor profiles and the resolution of a request's image.
-- The command is analysed in Commands.
pub mod Commands
pub mod Preflight
pub mod Running
pub mod Visible
pub mod Executables
pub mod Accepting
pub mod Rejects
use sudo_service.Prelude.{
  String, List, [], ◌∷◌, Option, none, some, Bool, false, ◌&&◌, not, is_empty, if◌then◌else◌,
  lookup,
}
use sudo_service.Types.{SudoRequest, errorf, Result, ok, err, ◌>>=◌}

pub record ExecutorShell : Type 0 where
  pub path : String
  pub dialect : String
  pub supports_pipefail : Bool
  pub supports_bash : Bool

pub record ExecutorProfile : Type 0 where
  pub name : String
  pub description : String
  pub image : String
  pub shell : ExecutorShell
  pub executables : List String
  pub absent_executables : List String
  pub capabilities : List String

abbrev pub busybox_ash : ExecutorShell
busybox_ash = record {
  path = "/bin/sh";
  dialect = "busybox-ash";
  supports_pipefail = false;
  supports_bash = false;
}

abbrev pub kubectl_profile : ExecutorProfile
kubectl_profile = record {
  name = "kubectl";
  description = "Kubernetes administration with kubectl, Helm, and common structured-data tools";
  image =
      "alpine/k8s:1.35.5@sha256:d870622d004031c4e3ddad80d200692792509176db03c346a8526f4f45476e96";
  shell = busybox_ash;
  executables = "bash" ∷ "curl" ∷ "git" ∷ "helm" ∷ "jq" ∷ "kubectl" ∷ "sh" ∷ "yq" ∷ [];
  absent_executables =
      "ansible" ∷ "ansible-playbook" ∷ "cf-terraforming" ∷ "ssh" ∷ "ssh-keygen" ∷ [];
  capabilities = "kubernetes" ∷ "helm" ∷ "http" ∷ "git" ∷ "json" ∷ "yaml" ∷ [];
}

abbrev pub network_tools_profile : ExecutorProfile
network_tools_profile = record {
  name = "network-tools";
  description = "Network diagnosis with DNS, HTTP, packet, and socket tooling";
  image =
      "nicolaka/netshoot:v0.14@sha256:7f08c4aff13ff61a35d30e30c5c1ea8396eac6ab4ce19fd02d5a4b3b5d0d09a2";
  shell = busybox_ash;
  executables =
      "bash" ∷ "curl" ∷ "dig" ∷ "jq" ∷ "nc" ∷ "nmap" ∷ "sh" ∷ "ssh" ∷ "ssh-keygen" ∷ "tcpdump"
      ∷ "yq" ∷ [];
  absent_executables = "ansible" ∷ "ansible-playbook" ∷ "cf-terraforming" ∷ "helm" ∷ "kubectl" ∷ [];
  capabilities = "dns" ∷ "http" ∷ "sockets" ∷ "ssh" ∷ "json" ∷ "yaml" ∷ [];
}

abbrev pub executor_profiles : List (String × ExecutorProfile)
executor_profiles = ("kubectl", kubectl_profile) ∷ ("network-tools", network_tools_profile) ∷ []

abbrev pub default_executor_profile : String
default_executor_profile = "kubectl"

abbrev pub default_executor_image : String
default_executor_image = kubectl_profile.image

unfoldable pub lookup_profile :
    Option ExecutorProfile → String → Result (Option ExecutorProfile × String)
lookup_profile none name =
    err
      (errorf "unknown executor profile %q (available: %s)" (name ∷ "kubectl, network-tools" ∷ []))
lookup_profile (some p) name = ok (some p, p.image)

-- The profile, if one was chosen, and the image; a raw image has no profile.
unfoldable pub resolve_executor_profile : SudoRequest → Result (Option ExecutorProfile × String)
unfolding lookup_profile
resolve_executor_profile sr =
    if not (is_empty profile) && not (is_empty image)
    then err (
        errorf
          "profile and image are mutually exclusive; use a profile alias or an arbitrary raw image"
          [])
    else if not (is_empty image)
    then ok (none, image)
    else let name = if is_empty profile then default_executor_profile else profile in
      lookup_profile (lookup name executor_profiles) name
  where
    open sr.spec use {profile, image}

unfoldable pub resolve_and_preflight :
    (String → Option ExecutorProfile → Result (List String))
    → SudoRequest
    → Result (Option ExecutorProfile × String × List String)
resolve_and_preflight preflight sr = do
  (profile, image) ← resolve_executor_profile sr
  warnings ← preflight sr.spec.command profile
  ok (profile, image, warnings)

unfoldable pub image_of_profile : Result (Option ExecutorProfile × String) → String
image_of_profile (ok (some p, image)) = p.image
image_of_profile (ok (none, image)) = default_executor_image
image_of_profile (err e) = default_executor_image

-- The image that the executor runs.
unfoldable pub image_for : SudoRequest → String
unfolding image_of_profile
image_for sr =
    if not (is_empty sr.status.resolved_image)
    then sr.status.resolved_image
    else if not (is_empty sr.spec.image)
    then sr.spec.image
    else image_of_profile (resolve_executor_profile sr)

unfoldable pub profile_for : SudoRequest → String
profile_for sr =
    if not (is_empty sr.status.resolved_profile)
    then sr.status.resolved_profile
    else if not (is_empty sr.spec.image)
    then ""
    else if not (is_empty sr.spec.profile)
    then sr.spec.profile
    else default_executor_profile
