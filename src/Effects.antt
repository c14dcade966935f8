-- ===== src/Effects.antt =====
-- `write_status` holds the object as it was read, whose resource version the write carries, and as
-- it is written. `create_output` names the Secret, its bytes and its expiry in Unix seconds.
-- What a handler does to the outside: its writes with their replies, the Kubernetes events that it
-- records, what it publishes to subscribers, and the notifications that it sends; in order. A
-- handler is such a list with the value or the error that it returns.
use sudo_service.Prelude.{ℕ, String, List, [], ◌∷◌, ◌++◌, Option, none, some, if◌then◌else◌}
use sudo_service.Types.{SudoRequest, Error, api, ApiError, Result, ok, err, Reply, found, refused}
use sudo_service.Cluster.{Job, Secret, WriteReply, took, write_error}
use sudo_service.Broadcaster.{Event}
use sudo_service.Executor.Manifest.{JobManifest}

pub data Effect : Type 0 where
  write_status : SudoRequest → SudoRequest → WriteReply → Effect
  write_object : SudoRequest → WriteReply → Effect
  create_request : SudoRequest → WriteReply → Effect
  create_job : JobManifest → WriteReply → Effect
  delete_job : Job → WriteReply → Effect
  create_secret : Secret → WriteReply → Effect
  create_output : String → List ℕ → ℕ → WriteReply → Effect
  delete_secret : String → String → WriteReply → Effect
  delete_target : Job → String → WriteReply → Effect
  record_event : String → Effect
  publish : String → Event → Effect
  push : String → String → String → Effect

pub record M (A : Type 0) : Type 0 where
  pub effects : List Effect
  pub result : Result A

abbrev pub return : {A : Type 0} → A → M A
return a = record { effects = []; result = ok a }

abbrev pub fail : {A : Type 0} → Error → M A
fail e = record { effects = []; result = err e }

abbrev pub tell : Effect → M (Unit {0})
tell e = record { effects = e ∷ []; result = ok tt }

abbrev pub continue : {A B : Type 0} → List Effect → Result A → (A → M B) → M B
continue es (ok a) f = record { effects = es ++ (f a).effects; result = (f a).result }
continue es (err e) f = record { effects = es; result = err e }

infixl 5 ◌>>=◌ ◌>>◌
abbrev pub ◌>>=◌ : {A B : Type 0} → M A → (A → M B) → M B
m >>= f = continue m.effects m.result f

abbrev pub ◌>>◌ : {B : Type 0} → M (Unit {0}) → M B → M B
m >> k = m >>= λ _. k

abbrev pub lift : {A : Type 0} → Result A → M A
lift r = record { effects = []; result = r }

-- `if err := write; err != nil { return fmt.Errorf(…) }`.
abbrev pub check : (Error → Error) → WriteReply → M (Unit {0})
check wrap reply = elim (write_error reply) [ none ↦ return tt | some e ↦ fail (wrap (api e)) ]

-- The code looks at the error of a call and goes on in both cases.
abbrev pub resume : {A B : Type 0} → Result A → (A → M B) → (Error → M B) → M B
resume (ok a) f g = f a
resume (err e) f g = g e

-- The same on the answer to a read, on a pointer, and on the error of a write.
abbrev pub on_reply : {A B : Type 0} → Reply A → (A → M B) → (ApiError → M B) → M B
on_reply (found a) f g = f a
on_reply (refused e) f g = g e

abbrev pub on_option : {A B : Type 0} → Option A → (A → M B) → M B → M B
on_option none f m = m
on_option (some a) f m = f a

abbrev pub on_result : {A B : Type 0} → M A → (A → M B) → (Error → M B) → M B
on_result m f g = record {
  effects = m.effects ++ (resume m.result f g).effects;
  result = (resume m.result f g).result;
}

-- What ctrl.Result asks of the work queue.
pub data Requeue : Type 0 where
  done now : Requeue
  after : ℕ → Requeue

-- The stored object after a handler's writes: the status subresource takes the status alone, an
-- update of the object the metadata alone.
abbrev pub commit : SudoRequest → Effect → SudoRequest
commit stored (write_status base sr reply) =
    if took reply then record stored { status = sr.status } else stored
commit stored (write_object sr reply) =
    if took reply then record stored { finalizers = sr.finalizers } else stored
commit stored _ = stored

abbrev pub commit_all : SudoRequest → List Effect → SudoRequest
commit_all stored [] = stored
commit_all stored (e ∷ es) = commit_all (commit stored e) es
