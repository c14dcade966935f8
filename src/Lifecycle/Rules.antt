-- ===== src/Lifecycle/Rules.antt =====
-- A predicate on every effect of a handler: a rule for each way in which handlers are composed.
use sudo_service.Prelude.{
  List, [], ◌∷◌, ◌++◌, Option, none, some, Bool, true, false, ◌≡◌, refl, All, if◌then◌else◌,
}
use sudo_service.Types.{
  SudoRequest, Error, api, ApiError, is_conflict, Result, ok, err, Reply, found, refused,
}
use sudo_service.Cluster.{WriteReply, accepted, rejected, lost}
use sudo_service.Effects.{
  Effect, write_status, M, fail, check, on_result, on_reply, on_option, resume, ◌>>=◌, continue,
}
use sudo_service.Reconciler.Update.{
  Attempt, UpdateReplies, settle, attempt, retry_on_conflict, update_status,
}

pub All-append :
    (P : Effect → Type 0) (xs ys : List Effect) → All P xs → All P ys → All P (xs ++ ys)
All-append P [] ys hx hy = hy
All-append P (x ∷ xs) ys hx hy = (hx.0, All-append P xs ys hx.1 hy)

pub All-if :
    (P : Effect → Type 0) (t : Bool) (xs ys : List Effect)
    → All P xs
    → All P ys
    → All P (if t then xs else ys)
All-if P true xs ys hx hy = hx
All-if P false xs ys hx hy = hy

module _ (P : Effect → Type 0) where
  -- The effects of `m` satisfy `P`.
  abbrev pub Each : {A : Type 0} → M A → Type 0
  Each m = All P m.effects

  continue-All :
      {A B : Type 0} (es : List Effect) (r : Result A) (f : A → M B)
      → All P es
      → ((a : A) → Each (f a))
      → Each (continue es r f)
  continue-All es (ok a) f h k = All-append P es (f a).effects h (k a)
  continue-All es (err e) f h k = h

  pub Each->>= :
      {A B : Type 0} (m : M A) (f : A → M B) → Each m → ((a : A) → Each (f a)) → Each (m >>= f)
  Each->>= m f h k = continue-All m.effects m.result f h k

  continue-All_eq :
      {A B : Type 0} (es : List Effect) (r : Result A) (f : A → M B)
      → All P es
      → ((a : A) → r ≡ ok a → Each (f a))
      → Each (continue es r f)
  continue-All_eq es (ok a) f h k = All-append P es (f a).effects h (k a refl)
  continue-All_eq es (err e) f h k = h

  -- The same, where the second part needs what the first one returned.
  pub Each->>=_eq :
      {A B : Type 0} (m : M A) (f : A → M B)
      → Each m
      → ((a : A) → m.result ≡ ok a → Each (f a))
      → Each (m >>= f)
  Each->>=_eq m f h k = continue-All_eq m.effects m.result f h k

  pub Each-resume :
      {A B : Type 0} (r : Result A) (f : A → M B) (g : Error → M B)
      → ((a : A) → Each (f a))
      → ((e : Error) → Each (g e))
      → Each (resume r f g)
  Each-resume (ok a) f g hf hg = hf a
  Each-resume (err e) f g hf hg = hg e

  pub Each-on_reply :
      {A B : Type 0} (r : Reply A) (f : A → M B) (g : ApiError → M B)
      → ((a : A) → Each (f a))
      → ((e : ApiError) → Each (g e))
      → Each (on_reply r f g)
  Each-on_reply (found a) f g hf hg = hf a
  Each-on_reply (refused e) f g hf hg = hg e

  pub Each-on_option :
      {A B : Type 0} (o : Option A) (f : A → M B) (m : M B)
      → ((a : A) → Each (f a))
      → Each m
      → Each (on_option o f m)
  Each-on_option none f m hf hm = hm
  Each-on_option (some a) f m hf hm = hf a

  pub Each-on_result :
      {A B : Type 0} (m : M A) (f : A → M B) (g : Error → M B)
      → Each m
      → ((a : A) → Each (f a))
      → ((e : Error) → Each (g e))
      → Each (on_result m f g)
  Each-on_result m f g h hf hg =
      All-append P m.effects (resume m.result f g).effects h (Each-resume m.result f g hf hg)

  Each-resume_eq :
      {A B : Type 0} (r : Result A) (f : A → M B) (g : Error → M B)
      → ((a : A) → r ≡ ok a → Each (f a))
      → ((e : Error) → Each (g e))
      → Each (resume r f g)
  Each-resume_eq (ok a) f g hf hg = hf a refl
  Each-resume_eq (err e) f g hf hg = hg e

  -- The same, where the first branch needs what the call returned.
  pub Each-on_result_eq :
      {A B : Type 0} (m : M A) (f : A → M B) (g : Error → M B)
      → Each m
      → ((a : A) → m.result ≡ ok a → Each (f a))
      → ((e : Error) → Each (g e))
      → Each (on_result m f g)
  Each-on_result_eq m f g h hf hg =
      All-append P m.effects (resume m.result f g).effects h (Each-resume_eq m.result f g hf hg)

  pub Each-check : (wrap : Error → Error) (reply : WriteReply) → Each (check wrap reply)
  Each-check wrap accepted = tt
  Each-check wrap (rejected e) = tt
  Each-check wrap (lost e) = tt

  pub Each-if : {A : Type 0} (b : Bool) (m n : M A) → Each m → Each n → Each (if b then m else n)
  Each-if true m n hm hn = hm
  Each-if false m n hm hn = hn

  -- The same, where a branch needs its test.
  pub Each-if_eq :
      {A : Type 0} (b : Bool) (m n : M A)
      → (b ≡ true → Each m)
      → (b ≡ false → Each n)
      → Each (if b then m else n)
  Each-if_eq true m n hm hn = hm refl
  Each-if_eq false m n hm hn = hn refl

  Each-settle :
      (reply : WriteReply) (written : SudoRequest) (again : M SudoRequest)
      → Each again
      → Each (settle reply written again)
  unfolding settle
  Each-settle accepted written again h = tt
  Each-settle (rejected e) written again h = Each-if (is_conflict e) again (fail (api e)) h tt
  Each-settle (lost e) written again h = Each-if (is_conflict e) again (fail (api e)) h tt

  -- What `P` asks of an attempt of an update, for the object that was read again.
  abbrev pub OnAttempt : (SudoRequest → SudoRequest) → Reply SudoRequest → WriteReply → Type 0
  OnAttempt mutate (refused e) reply = Unit
  OnAttempt mutate (found latest) reply = P (write_status latest (mutate latest) reply)

  abbrev pub OnAttempts : (SudoRequest → SudoRequest) → List Attempt → Type 0
  OnAttempts mutate = All (λ a. OnAttempt mutate a.latest a.reply)

  Each-attempt :
      (mutate : SudoRequest → SudoRequest) (latest : Reply SudoRequest) (reply : WriteReply)
      (again : M SudoRequest)
      → OnAttempt mutate latest reply
      → Each again
      → Each (attempt mutate latest reply again)
  unfolding attempt
  Each-attempt mutate (refused e) reply again w h =
      Each-if (is_conflict e) again (fail (api e)) h tt
  Each-attempt mutate (found latest) reply again w h =
      (w, Each-settle reply (mutate latest) again h)

  Each-retry_on_conflict :
      (mutate : SudoRequest → SudoRequest) (attempts : List Attempt)
      → OnAttempts mutate attempts
      → Each (retry_on_conflict mutate attempts)
  unfolding retry_on_conflict
  Each-retry_on_conflict mutate [] h = tt
  Each-retry_on_conflict mutate (a ∷ rest) h =
      Each-attempt mutate a.latest a.reply (retry_on_conflict mutate rest) h.0
        (Each-retry_on_conflict mutate rest h.1)

  pub Each-update_status :
      (mutate : SudoRequest → SudoRequest) (r : UpdateReplies) (base sr : SudoRequest)
      → P (write_status base (mutate sr) r.first)
      → OnAttempts mutate r.attempts
      → Each (update_status mutate r base sr)
  unfolding update_status
  Each-update_status mutate r base sr w h =
      (w, Each-settle r.first (mutate sr) _ (Each-retry_on_conflict mutate r.attempts h))
