-- ===== src/Tests/Pages.antt =====
-- An API server, a caller, an administrator, and the theorems on the handlers at their requests.
use sudo_service.Prelude.{String, List, [], ◌∷◌, none, some, true, ◌⊎◌, if◌then◌else◌, refl}
use sudo_service.Types.{SudoRequest, Phase, Reply, Result}
use sudo_service.Cluster.{WriteReply}
use sudo_service.Broadcaster.{phase_event}
use sudo_service.Lifecycle.Rules.{Each}
use sudo_service.Http.Auth.{HumanClaims, UserInfo}
use sudo_service.Http.Message.{ApiServer, CreateRequestBody, Form, HttpRequest}
use sudo_service.Http.Submit.{SubmitReplies, create_request_handler}
use sudo_service.Http.Serve.{ServeReplies, request_subpath_handler}
use sudo_service.Http.Decide.{PostReplies, approve_handler, deny_handler, resubmit_handler}
use sudo_service.Http.Page.{PageReplies}
use sudo_service.Http.Admitted.{Acts, Approves, Denies, Resubmits, handlers-Admitted}
use sudo_service.Http.Submitting.{Creates, Submission, create_request_handler-Submission}
use sudo_service.Http.Owned.{Refuses, Owner, request_subpath_handler-Owner}
use sudo_service.Http.Streams.{Sends, has_ended, serve_events-Sends}
use sudo_service.Tests.Requests.{controller, new_request, pending_request}
use sudo_service.Tests.Runs.{decide_replies}
use sudo_service.Tests.Retries.{replies, failed_request}

abbrev alice : UserInfo
alice = record { username = "alice"; uid = "u1"; groups = []; extra = [] }

abbrev admin : HumanClaims
admin = record {
  subject = "s1";
  preferred_username = "bob";
  email = "bob@example";
  groups = "/admins" ∷ [];
}

abbrev pub server : ApiServer
server = record {
  controller = controller;
  admin_group = "admins";
  id_token = λ raw. Result.ok (Result.ok admin);
  token_review = λ token audiences.
      Reply.found
        (record { authenticated = true; audiences = audiences; user = alice; error = "" });
  access_review =
      λ review. Reply.found (record { allowed = true; reason = ""; evaluation_error = "" });
}

abbrev form : Form
form = record { id = "uid-1"; token = ""; reason = "no"; csrf_token = 5 ∷ [] }

abbrev body : CreateRequestBody
body = record {
  reason = "look at the pods";
  command = "kubectl get pods";
  image = "";
  profile = "";
  playbook = none;
  ttl_seconds_after_approval = none;
  target_namespace = "";
  stdin = "";
  env = [];
  env_from = [];
  volumes = [];
  volume_mounts = [];
  init_containers = [];
  image_pull_secrets = [];
  cluster_admin = none;
}

-- A POST with a form of the administrator and with a body of the caller.
abbrev post : String → HttpRequest
post path = record {
  method = "POST";
  path = path;
  authorization = "Bearer t";
  id_token_header = "jwt";
  access_token_header = "";
  csrf_cookie = some (5 ∷ []);
  query_id = "";
  query_token = "";
  form = Result.ok form;
  body = Result.ok body;
  flushes = true;
}

abbrev page_replies : PageReplies
page_replies = record {
  verify_listing = Reply.found (pending_request ∷ []);
  verify_time = 0;
  listing = Reply.found (pending_request ∷ []);
  random = Result.ok (7 ∷ []);
}

abbrev post_replies : PostReplies
post_replies = record {
  verify_listing = Reply.found (pending_request ∷ []);
  verify_time = 0;
  decide = record decide_replies { update = WriteReply.accepted };
}

abbrev listing : Reply (List SudoRequest)
listing = Reply.found (failed_request ∷ [])

handlers-Admitted_example :
    Acts server
      (post "/approve")
      (Approves server (post "/approve") post_replies)
      (approve_handler server page_replies post_replies (post "/approve"))
    × Acts server
        (post "/approve")
        (Denies server (post "/approve") post_replies)
        (deny_handler server post_replies (post "/approve"))
    × Acts server
        (post "/approve")
        (Resubmits server (post "/approve") listing replies)
        (resubmit_handler server listing replies (post "/approve"))
handlers-Admitted_example =
    handlers-Admitted server (post "/approve") page_replies post_replies listing replies

abbrev submit_replies : SubmitReplies
submit_replies = record {
  listing = listing;
  create = WriteReply.accepted;
  created_name = "http-1";
  created_uid = "uid-9";
}

create_request_handler-Submission_example :
    Each
      (Creates (Submission server submit_replies (post "/requests")))
      (create_request_handler server submit_replies (post "/requests"))
create_request_handler-Submission_example =
    create_request_handler-Submission server submit_replies (post "/requests")

abbrev serve_replies : ServeReplies
serve_replies = record {
  listing = listing;
  listing_again = listing;
  output = λ name. Reply.found (1 ∷ 2 ∷ []);
  channel = [];
  retry = replies;
}

request_subpath_handler-Owner_example :
    Refuses (request_subpath_handler server serve_replies (post "/requests/uid-1/retry"))
    ⊎ Owner server serve_replies
        (post "/requests/uid-1/retry")
        (request_subpath_handler server serve_replies (post "/requests/uid-1/retry"))
request_subpath_handler-Owner_example =
    request_subpath_handler-Owner server serve_replies (post "/requests/uid-1/retry")

abbrev open_listing : Reply (List SudoRequest)
open_listing = Reply.found (new_request ∷ [])

serve_events-Sends_example :
    Sends true open_listing
      (phase_event new_request Phase.approved ∷ phase_event new_request Phase.executed ∷ [])
      new_request
      (if has_ended open_listing new_request
        then []
        else phase_event new_request Phase.approved ∷ phase_event new_request Phase.executed ∷ [])
    × Sends true open_listing (phase_event new_request Phase.approved ∷ []) new_request (
        if has_ended open_listing new_request
        then []
        else phase_event new_request Phase.approved ∷ [])
serve_events-Sends_example =
    serve_events-Sends open_listing new_request (phase_event new_request Phase.approved ∷ [])
      (phase_event new_request Phase.executed) [] (refl, tt) refl
