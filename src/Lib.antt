-- ===== src/Lib.antt =====
-- sudo-service: a Kubernetes controller that runs a requested command once a human, or an allowlist,
-- has approved it. This library models the controller's own logic and proves what it promises.
--
-- The parts, and the files of the repository that they model:
--   Types          types.go: SudoRequest with its spec, its status and the constants; the phases;
--                  errors as values. Times are nanoseconds in ℕ, Unix times seconds; an int32 is a
--                  ℤ.
--   Cluster        the Kubernetes objects with the fields that the program reads, the answers of
--                  the API server to a write (taken, refused, or taken with the answer lost), and
--                  jobTerminal.
--   Broadcaster    broadcaster.go: the Event; Subscribers (the tables and their operations);
--                  Subscribed, Audience and Delivery are about who is subscribed and who receives.
--   Profiles       profiles.go: the catalogue, resolveExecutorProfile and resolveAndPreflight, with
--                  reconciler.go's imageFor and profileFor; Commands (the walks over the parsed
--                  command), Preflight (preflightCommand); Running gives rules for what a command
--                  runs, Visible and Executables compare them with the walks, and Accepting and
--                  Rejects are about what the preflight refuses.
--   AutoApprove    auto_approve.go: getAutoApproveParsedCommand; Rules reads it declaratively.
--   Executor       executor.go and decode.go: Target (namespace, account, argv, names), Scratch
--                  (stampScratch), Manifest (buildExecutorJob), Decode (decodePodExtras), Children
--                  (findOrCreateJob, ensureStdinSecret, stopJob), Pods (what a pod's status says),
--                  Output (boundedLogWriter, captureJobOutput). Bounded is about the writer,
--                  Confined about the Job, Stamping about the scratch areas.
--   Review         review.go: Shell (shellJoin), Describe (the lines for volumes, mounts and
--                  variables), Extras (newSpecExtrasView, specExtrasText, displayPodTemplate);
--                  Reader and Words are about the quoting, Redacted about the text that leaves the
--                  cluster, Displayed about the pod that does; Revalued is about other values of
--                  the variables.
--   Validation     validation.go: validateSpecExtras, with the verdict of describeVolumeSource;
--                  Mounts and Accepted read it declaratively.
--   Summarizer     summarizer.go: validatePermissionResponse and Summarize from the model's answer
--                  on; Canonical, Collected and Accepted are about the effects and the accepted
--                  answers.
--   Playbooks      playbooks.go: Load (LoadPlaybookConfig), Params (parameters and canonical
--                  command), Prepare (prepareAutoApprovedPlaybook), Execute
--                  (executeAutoApprovedPlaybook); Safety and Loading are about what is approved.
--   Reconciler     reconciler.go: Update (updateStatus, markFailed), Finalize, Token
--                  (constantTimeEqual), Decide (Approve, Deny, VerifyApprovalToken), Deliver,
--                  Pending (handlePending), New (handleNew), Approved (handleApproved), Dispatch
--                  (Reconcile); Once and Decided are about the one-time token and decisions, Masked
--                  about what reaches the model, Notified about what is sent to the approver, Checks
--                  about firstError.
--   Retry          retry.go: Fingerprint (executionFingerprint and the search for a duplicate),
--                  Successor (retryRequest, adoption and the link to the successor); Fresh,
--                  Linking, Creating and Adopting are about what they find, write, create and
--                  return.
--   Http           api.go and auth.go: Auth (the identities), Message (what a handler reads and
--                  answers), Callers (authenticateBearer, authenticateHuman, the CSRF token),
--                  Submit (createRequestHandler, profilesHandler), Serve (requestSubpathHandler
--                  with what it serves, and retryRequester of retry.go), Decide (approveHandler,
--                  denyHandler, resubmitHandler), Page (renderApprovePage), Pages (indexHandler,
--                  globalEventsHandler). Guards, Groups and Identity are about the guards of all
--                  handlers; Admitted, Submitting, Owned and Streams are about the pages, a new
--                  request, the requester's paths and an event stream.
--   Pushover       pushover.go: what SendApproval makes of the answer.
--   Startup        main.go: loadConfig and the server that main makes of it, LoadAutoApproveConfig
--                  of auto_approve.go, the defaults of NewSummarizer; Wired is about that server.
--   Gc             gc.go: sweepSecrets and expirePending; Complete.
--   Effects        what a handler does to the outside, in order, with the value or error it
--                  returns.
--   Controller     the configuration, and the third-party functions that the code calls.
--   Lifecycle      the graph of phases and the proofs that follow every status write of every
--                  handler; Steps puts the runs of all entry points together as a step relation on
--                  the stored object; Concluding is about the end of handleApproved, Overwriting
--                  about a retry after a conflict.
--   Tests          concrete requests, answers and runs, and the theorems at them.
--
-- How code becomes a definition. A handler takes a record of answers, one field for each call site
-- of the API server, the clock or the random source, and returns the list of its effects with its
-- result; so an error path is a value, and a theorem over all records covers every interleaving of
-- failures. A status write is kept with the object as it was read and as it is written.
-- updateStatus retries on a conflict: each further attempt is a read and a write in a list of any
-- length, and where the list ends the code gives up with the conflict, as client-go does. Every
-- loop of the code is structural recursion, without fuel; only the printing of a number in decimal
-- counts down from 20 digits, which every 64-bit number fits in. An error message is kept as its
-- format and arguments, without its text.
--
-- Parameters. shlex.Split, SHA-256, the canonical JSON of a spec with its digest, the shell parser
-- with the nodes that it finds, the regular expressions of profiles.go, net/url and the DNS-1123
-- checks are fields of Controller. The verification of a JWT, TokenReview and SubjectAccessReview
-- are fields of ApiServer. The answer of the summarizer's model is any function of what it is
-- shown. Nothing is assumed of them. JSON decoding of pod fields and of a body, and YAML decoding
-- of a file, are part of the data: a raw field is blank, malformed or decodes.
--
-- An event stream is the list of the events that its channel delivers until the client goes away.
--
-- Assumptions. The theorems on phases assume, where they say so, that an update which is retried
-- after a conflict reads an object in the phase that its handler acts on; updateStatus itself does
-- not check that. A step of Lifecycle.Steps is a write whose base is the stored object, which the
-- resource version ensures.
--
-- Not modelled: the HTML templates, JSON, YAML and the framing of the event streams, the health
-- check and the table of routes (api.go, review.go); the constructors of clients (auth.go,
-- summarizer.go) and the constant texts that the model is given; the call of Pushover
-- (pushover.go), log streaming (logs.go), the rest of the start-up (the manager, the listener,
-- signals and the request log of main.go), the client and the charts: they are I/O and wiring.
mod Prelude
pub mod Types
pub mod Profiles
pub mod AutoApprove
pub mod Cluster
pub mod Broadcaster
pub mod Executor
pub mod Effects
pub mod Validation
pub mod Controller
pub mod Playbooks
pub mod Reconciler
pub mod Gc
pub mod Retry
pub mod Review
pub mod Summarizer
pub mod Pushover
pub mod Startup
pub mod Http
pub mod Lifecycle
mod Tests
