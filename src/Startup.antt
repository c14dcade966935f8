-- ===== src/Startup.antt =====
-- main.go: loadConfig, with what else the start-up settles before it serves: LoadAutoApproveConfig of
-- auto_approve.go and the defaults of NewSummarizer of summarizer.go.
pub mod Wired
use sudo_service.Prelude.{
  String, List, [], ◌∷◌, Option, none, some, Bool, true, false, ◌||◌, not, is_empty, ◌===◌,
  if◌then◌else◌, to_lower, trim_right_of,
}
use sudo_service.Types.{
  api, is_not_found, ApiError, errorf, wrapf, Result, ok, err, ◌>>=◌, Reply,
  configured_controller_namespace,
}
use sudo_service.AutoApprove.{AutoApproveRule}
use sudo_service.Playbooks.{PlaybookConfig}
use sudo_service.Playbooks.Load.{load_playbook_config}
use sudo_service.Controller.{Controller}
use sudo_service.Http.Message.{ApiServer}

pub record Config : Type 0 where
  pub controller_namespace : String
  pub bind_address : String
  pub public_base_url : String
  pub pushover_token : String
  pub pushover_user_key : String
  pub keycloak_issuer : String
  pub keycloak_audience : String
  pub admin_group : String
  pub cookie_signing_key : String
  pub oauth2_proxy_mode : Bool
  pub auto_approve_config_path : String
  pub playbook_config_path : String
  pub openai_api_key : String
  pub openai_base_url : String
  pub openai_model : String

abbrev pub default_openai_base_url : String
default_openai_base_url = "https://api.openai.com/v1"

abbrev pub default_openai_model : String
default_openai_model = "gpt-5.4-mini"

-- `env` is os.Getenv: a variable that is not set is the empty text.
unfoldable pub getenv : (String → String) → String → String → String
getenv env k default = if not (is_empty (env k)) then env k else default

unfoldable pub config_of : (String → String) → Config
unfolding getenv
config_of env = record {
  controller_namespace = configured_controller_namespace (env "POD_NAMESPACE");
  bind_address = getenv env "BIND_ADDRESS" "127.0.0.1:8080";
  public_base_url = getenv env "PUBLIC_BASE_URL" "https://sudo.andrewgarrett.dev";
  pushover_token = env "PUSHOVER_TOKEN";
  pushover_user_key = env "PUSHOVER_USER_KEY";
  keycloak_issuer = getenv env "KEYCLOAK_ISSUER" "https://id.andrewgarrett.dev/realms/master";
  keycloak_audience = getenv env "KEYCLOAK_AUDIENCE" "sudo-service";
  admin_group = getenv env "ADMIN_GROUP" "cluster-admins";
  cookie_signing_key = env "COOKIE_SIGNING_KEY";
  oauth2_proxy_mode = to_lower (env "OAUTH2_PROXY_MODE") === "true";
  auto_approve_config_path = env "AUTO_APPROVE_CONFIG";
  playbook_config_path = env "PLAYBOOK_CONFIG";
  openai_api_key = env "OPENAI_API_KEY";
  openai_base_url = getenv env "OPENAI_BASE_URL" default_openai_base_url;
  openai_model = getenv env "OPENAI_MODEL" default_openai_model;
}

unfoldable pub load_config : (String → Bool) → (String → String) → Result Config
unfolding config_of
load_config is_label env =
    let cfg = config_of env in
    if is_empty cfg.pushover_token || is_empty cfg.pushover_user_key
    then err (errorf "PUSHOVER_TOKEN and PUSHOVER_USER_KEY are required" [])
    else if not (is_label cfg.controller_namespace)
    then err (
        errorf "POD_NAMESPACE %q is not a valid Kubernetes namespace: %s"
          (cfg.controller_namespace ∷ []))
    else ok cfg

-- The rules after LoadAutoApproveConfig, from the rules before; a file that does not exist is no error.
-- `read` gives what os.ReadFile answers, which decodes as strict YAML or not.
unfoldable pub load_auto_approve_config :
    (String → Reply (Result (List AutoApproveRule)))
    → List AutoApproveRule
    → String
    → Result (List AutoApproveRule)
load_auto_approve_config read rules path = if is_empty path then ok rules else elim (read path) [
  | Reply.refused e ↦
      if is_not_found e
      then ok rules
      else err (wrapf "read auto-approve config %s: %w" (path ∷ []) (api e))
  | Reply.found (Result.err e) ↦ err (wrapf "unmarshal auto-approve config %s: %w" (path ∷ []) e)
  | Reply.found (Result.ok loaded) ↦ ok loaded
]

-- NewSummarizer: no summarizer without a key; else its base URL and its model. 47 is the slash.
unfoldable pub new_summarizer : String → String → String → Option (String × String)
new_summarizer api_key base_url model =
    if is_empty api_key
    then none
    else some (
      trim_right_of 47 (if is_empty base_url then default_openai_base_url else base_url),
      if is_empty model then default_openai_model else model,
    )

-- The files that are read at the start, by their paths.
pub record Files : Type 0 where
  pub rules : String → Reply (Result (List AutoApproveRule))
  pub playbooks : String → Result (Result PlaybookConfig)

abbrev pub is_enabled : Option (String × String) → Bool
is_enabled none = false
is_enabled (some s) = true

abbrev pub model_of : Option (String × String) → String
model_of none = ""
model_of (some s) = s.1

-- The server of main, over the servers and the third-party functions of `base`.
unfoldable pub serve_with : ApiServer → Config → List AutoApproveRule → PlaybookConfig → ApiServer
unfolding new_summarizer
serve_with base cfg rules playbooks =
    let summarizer = new_summarizer cfg.openai_api_key cfg.openai_base_url cfg.openai_model in
    record base {
      controller = record (base.controller) {
        namespace = cfg.controller_namespace;
        rules = rules;
        playbooks = some playbooks;
        has_summarizer = is_enabled summarizer;
        summarizer_model = model_of summarizer;
      };
      admin_group = cfg.admin_group;
    }

-- main, up to the server that it starts; any error ends the process.
unfoldable pub start_up : ApiServer → Files → (String → String) → Result ApiServer
unfolding load_config load_auto_approve_config serve_with
start_up base files env = do
  cfg ← load_config base.controller.is_dns_label env
  rules ← load_auto_approve_config files.rules [] cfg.auto_approve_config_path
  playbooks ←
      load_playbook_config base.controller.is_dns_label base.controller.is_dns_subdomain
        files.playbooks cfg.playbook_config_path
  ok (serve_with base cfg rules playbooks)
