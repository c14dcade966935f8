-- ===== src/Broadcaster/Audience.antt =====
-- broadcaster.go: which channels Publish sends to.
use sudo_service.Prelude.{
  ℕ, ◌+◌, String, List, [], ◌∷◌, ◌++◌, Bool, true, false, Option, none, some, lookup, ltb, ◌==◌,
  ◌===◌, ◌||◌, ◌≡◌, refl, ap, ◌∙◌, arith, if◌then◌else◌,
}
use sudo_service.Broadcaster.Subscribers.{Tables, channels_of, recipients}
use sudo_service.Broadcaster.Subscribed.{one_if, count, no_number}

abbrev pub has : ℕ → List ℕ → Bool
has ch [] = false
has ch (x ∷ xs) = x == ch || has ch xs

-- The channel stands in the entry of a uid.
abbrev pub in_entry_of : Option (List ℕ) → ℕ → Bool
in_entry_of none ch = false
in_entry_of (some chs) ch = has ch chs

-- The channel is subscribed to all, or to the uid.
abbrev pub is_subscribed : Tables → String → ℕ → Bool
is_subscribed b uid ch = has ch b.all || in_entry_of (lookup uid b.subs) ch

counted-has : (ch : ℕ) (xs : List ℕ) → ltb 0 (count ch xs) ≡ has ch xs
counted-has ch [] = refl
counted-has ch (x ∷ xs) = by_test (x == ch) (counted-has ch xs)
  where
    by_test :
        (b : Bool)
        → ltb 0 (count ch xs) ≡ has ch xs
        → ltb 0 (one_if b + count ch xs) ≡ (b || has ch xs)
    by_test true h = ground arith
    by_test false h = ap (ltb 0) (no_number (count ch xs)) ∙ h

has-append : (ch : ℕ) (xs ys : List ℕ) → has ch (xs ++ ys) ≡ (has ch ys || has ch xs)
has-append ch [] ys = ground arith
has-append ch (x ∷ xs) ys = by_test (x == ch) (has ch xs) (has ch ys) (has-append ch xs ys)
  where
    by_test :
        (b m n : Bool) → has ch (xs ++ ys) ≡ (n || m) → (b || has ch (xs ++ ys)) ≡ (n || (b || m))
    by_test true m true h = refl
    by_test true m false h = refl
    by_test false m n h = h

channels_of-lookup :
    (uid : String) (ch : ℕ) (subs : List (String × List ℕ))
    → has ch (channels_of uid subs) ≡ in_entry_of (lookup uid subs) ch
unfolding channels_of lookup
channels_of-lookup uid ch [] = refl
channels_of-lookup uid ch ((u, chs) ∷ subs) = by_test (u === uid) (channels_of-lookup uid ch subs)
  where
    by_test :
        (b : Bool)
        → has ch (channels_of uid subs) ≡ in_entry_of (lookup uid subs) ch
        → has ch (if b then chs else channels_of uid subs)
          ≡ in_entry_of (if b then some chs else lookup uid subs) ch
    by_test true h = refl
    by_test false h = h

pub recipients-is_subscribed :
    (b : Tables) (uid : String) (ch : ℕ)
    → ltb 0 (count ch (recipients uid b)) ≡ is_subscribed b uid ch
unfolding recipients
recipients-is_subscribed b uid ch =
    counted-has ch (channels_of uid b.subs ++ b.all)
    ∙ (has-append ch (channels_of uid b.subs) b.all
        ∙ ap (λ k. has ch b.all || k) (channels_of-lookup uid ch b.subs))
