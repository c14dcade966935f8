-- ===== src/Gc/Complete.antt =====
-- What the two sweeps of the garbage collector reach.
use mathlib.Core.List.{Memᴰ}
use sudo_service.Prelude.{
  ℕ, List, [], ◌∷◌, ◌++◌, Bool, true, false, not, ◌≡◌, ◌≤◌, refl, sym, subst, ap, arith, All, leb,
  ◌↔◌, if◌then◌else◌,
}
use sudo_service.Types.{SudoRequest, pending, is_pending, ℤ, pos, negsuc, Reply, found, refused}
use sudo_service.Cluster.{Secret, ExpiryLabel, WriteReply}
use sudo_service.Effects.{Effect, write_status, delete_secret}
use sudo_service.Reconciler.Pending.{set_expired, expiry}
use sudo_service.Gc.{is_due, sweep_all, sweep_secrets, expire_one, must_expire, expire_all}

Mem_right : {A : Type 0} (a : A) (xs ys : List A) → Memᴰ a ys → Memᴰ a (xs ++ ys)
Mem_right a [] ys m = m
Mem_right a (x ∷ xs) ys m = Memᴰ.tail (Mem_right a xs ys m)

overdue :
    (now : ℕ) (sr : SudoRequest)
    → sr.status.phase ≡ pending
    → expiry sr ≤ now
    → must_expire now sr ≡ true
unfolding must_expire
overdue now sr e l = by_phase (is_pending sr.status.phase) (ap is_pending e)
  where
    by_phase : (b : Bool) → b ≡ true → (if not b then false else leb (expiry sr) now) ≡ true
    by_phase b h = ground (arith, l)

-- The write by which a request expires.
abbrev expires : (SudoRequest → WriteReply) → SudoRequest → Effect
expires update sr = write_status sr (set_expired sr) (update sr)

-- Every listed request that is pending and as old as PendingRequestTTL has its expiry written by
-- the garbage collector's loop, whatever happens to the other requests.
pub expire_all_complete :
    (now : ℕ) (update reply : SudoRequest → WriteReply) (b : Bool) (items : List SudoRequest)
    (sr : SudoRequest)
    → Memᴰ sr items
    → sr.status.phase ≡ pending
    → expiry sr ≤ now
    → Memᴰ (write_status sr (set_expired sr) (update sr)) (expire_all now update reply b items)
unfolding expire_all expire_one
expire_all_complete now update reply b [] sr m e l = elim m [ ]
expire_all_complete now update reply b (x ∷ items) sr (Memᴰ.head p) e l =
    by_test (must_expire now x) (subst (λ y. must_expire now y ≡ true) p (overdue now sr e l))
  where
    by_test :
        (t : Bool)
        → t ≡ true
        → Memᴰ (expires update sr) (
            if t
            then expire_one (update x) (reply x) b x ++ expire_all now update reply b items
            else expire_all now update reply b items)
    by_test true h = Memᴰ.head (ap (expires update) p)
    by_test false h = ground (arith, h)
expire_all_complete now update reply b (x ∷ items) sr (Memᴰ.tail m) e l =
    by_test (must_expire now x) (expire_all_complete now update reply b items sr m e l)
  where
    by_test :
        (t : Bool)
        → Memᴰ (expires update sr) (expire_all now update reply b items)
        → Memᴰ (expires update sr) (
            if t
            then expire_one (update x) (reply x) b x ++ expire_all now update reply b items
            else expire_all now update reply b items)
    by_test true h = Mem_right (expires update sr) (expire_one (update x) (reply x) b x) _ h
    by_test false h = h

-- `t` Unix seconds, which may be before 1970, are not after `now`.
abbrev pub NotAfter : ℕ → ℤ → Type 0
NotAfter now (pos t) = t ≤ now
NotAfter now (negsuc t) = Unit {0}

-- The label names a time, and that time has come.
abbrev pub Due : ℕ → ExpiryLabel → Type 0
Due now l = (t : ℤ) × (l ≡ ExpiryLabel.at_time t) × NotAfter now t

is_due-Due : (now : ℕ) (l : ExpiryLabel) → is_due now l ≡ true → Due now l
is_due-Due now ExpiryLabel.missing h = absurd (ground (arith, h))
is_due-Due now ExpiryLabel.unparsable h = absurd (ground (arith, h))
is_due-Due now (ExpiryLabel.at_time (pos t)) h = (pos t, refl, ground (arith, h))
is_due-Due now (ExpiryLabel.at_time (negsuc t)) h = (negsuc t, refl, tt)

is_due_time : (now : ℕ) (t : ℤ) → NotAfter now t → is_due now (ExpiryLabel.at_time t) ≡ true
is_due_time now (pos t) h = ground (arith, h)
is_due_time now (negsuc t) h = refl

Due-is_due : (now : ℕ) (l : ExpiryLabel) → Due now l → is_due now l ≡ true
Due-is_due now l (t, e, h) = subst (λ k. is_due now k ≡ true) (sym e) (is_due_time now t h)

-- The deletion of a listed Secret that is due.
abbrev pub DeletesDue : ℕ → (Secret → WriteReply) → List Secret → Effect → Type 0
DeletesDue now reply items e =
    (s : Secret) × Memᴰ s items
    × Due now s.expires_at
    × (e ≡ delete_secret s.namespace s.name (reply s))

sweep_sound :
    (now : ℕ) (reply : Secret → WriteReply) (all items : List Secret)
    → ((s : Secret) → Memᴰ s items → Memᴰ s all)
    → All (DeletesDue now reply all) (sweep_all now reply items)
unfolding sweep_all
sweep_sound now reply all [] inside = tt
sweep_sound now reply all (s ∷ items) inside =
    by_test (is_due now s.expires_at) refl
      (sweep_sound now reply all items (λ t m. inside t (Memᴰ.tail m)))
  where
    by_test :
        (t : Bool)
        → is_due now s.expires_at ≡ t
        → All (DeletesDue now reply all) (sweep_all now reply items)
        → All (DeletesDue now reply all) (
            if t
            then delete_secret s.namespace s.name (reply s) ∷ sweep_all now reply items
            else sweep_all now reply items)
    by_test true e h = ((s, inside s (Memᴰ.head refl), is_due-Due now s.expires_at e, refl), h)
    by_test false e h = h

sweep_complete :
    (now : ℕ) (reply : Secret → WriteReply) (items : List Secret) (s : Secret)
    → Memᴰ s items
    → is_due now s.expires_at ≡ true
    → Memᴰ (delete_secret s.namespace s.name (reply s)) (sweep_all now reply items)
unfolding sweep_all
sweep_complete now reply [] s m d = elim m [ ]
sweep_complete now reply (x ∷ items) s (Memᴰ.head p) d =
    by_test (is_due now x.expires_at) (subst (λ y. is_due now y.expires_at ≡ true) p d)
  where
    by_test :
        (t : Bool)
        → t ≡ true
        → Memᴰ (delete_secret s.namespace s.name (reply s)) (
            if t
            then delete_secret x.namespace x.name (reply x) ∷ sweep_all now reply items
            else sweep_all now reply items)
    by_test true h = Memᴰ.head (ap (λ y. delete_secret y.namespace y.name (reply y)) p)
    by_test false h = ground (arith, h)
sweep_complete now reply (x ∷ items) s (Memᴰ.tail m) d =
    by_test (is_due now x.expires_at) (sweep_complete now reply items s m d)
  where
    by_test :
        (t : Bool)
        → Memᴰ (delete_secret s.namespace s.name (reply s)) (sweep_all now reply items)
        → Memᴰ (delete_secret s.namespace s.name (reply s)) (
            if t
            then delete_secret x.namespace x.name (reply x) ∷ sweep_all now reply items
            else sweep_all now reply items)
    by_test true h = Memᴰ.tail h
    by_test false h = h

-- What holds of all effects holds of one of them.
member : (P : Effect → Type 0) (e : Effect) (es : List Effect) → All P es → Memᴰ e es → P e
member P e [] h m = elim m [ ]
member P e (x ∷ es) h (Memᴰ.head p) = subst P (sym p) h.0
member P e (x ∷ es) h (Memᴰ.tail m) = member P e es h.1 m

sweep_all-DeletesDue :
    (now : ℕ) (reply : Secret → WriteReply) (items : List Secret) (e : Effect)
    → Memᴰ e (sweep_all now reply items) ↔ DeletesDue now reply items e
sweep_all-DeletesDue now reply items e = (
  λ m.
      member (DeletesDue now reply items) e (sweep_all now reply items)
        (sweep_sound now reply items items (λ s k. k)) m,
  λ (s, m, d, p).
      subst (λ x. Memᴰ x (sweep_all now reply items)) (sym p)
        (sweep_complete now reply items s m (Due-is_due now s.expires_at d)),
)

-- What was listed; nothing where the list was refused.
abbrev listed_items : Reply (List Secret) → List Secret
listed_items (found items) = items
listed_items (refused e) = []

-- An effect is among those of the garbage collector's sweep exactly when the list is answered and
-- the effect is the deletion of a listed Secret whose label is a time, in Unix seconds, that is not
-- after now: no other Secret is deleted, such as one whose label is missing or does not parse, and
-- nothing is done if the list is refused.
pub sweep_secrets-DeletesDue :
    (now : ℕ) (reply : Secret → WriteReply) (listed : Reply (List Secret)) (e : Effect)
    → Memᴰ e (sweep_secrets now reply listed).effects
      ↔ (items : List Secret) × (listed ≡ found items) × DeletesDue now reply items e
unfolding sweep_secrets
sweep_secrets-DeletesDue now reply (refused x) e = (
  λ m. elim m [ ],
  λ (items, l, d). absurd (elim (subst (λ k. Memᴰ d.0 (listed_items k)) (sym l) d.1) [ ]),
)
sweep_secrets-DeletesDue now reply (found listed) e = (
  λ m. (listed, refl, (sweep_all-DeletesDue now reply listed e).0 m),
  λ (items, l, d).
      (sweep_all-DeletesDue now reply listed e).1
        (subst (λ k. DeletesDue now reply (listed_items k) e) (sym l) d),
)
