-- ===== src/Broadcaster/Subscribed.antt =====
-- Who is subscribed: every channel belongs to at most one subscription.
use sudo_service.Prelude.{
  ℕ, suc, ◌+◌, ◌≤◌, String, List, [], ◌∷◌, ◌++◌, Bool, true, false, ltb, is_cons, ◌==◌, ◌===◌, ◌≡◌,
  refl, arith, if◌then◌else◌,
}
use sudo_service.Broadcaster.{Event}
use sudo_service.Broadcaster.Subscribers.{
  Tables, add_channel, remove, remove_channel, subscribe_all, unsubscribe_all, subscribe,
  unsubscribe, publish,
}

abbrev pub one_if : Bool → ℕ
one_if true = 1
one_if false = 0

-- How often the channel is in the list.
abbrev pub count : ℕ → List ℕ → ℕ
count ch [] = 0
count ch (x ∷ xs) = one_if (x == ch) + count ch xs

abbrev pub flatten : List (String × List ℕ) → List ℕ
flatten [] = []
flatten ((u, chs) ∷ subs) = chs ++ flatten subs

-- No channel is subscribed twice, and none that does not exist yet.
abbrev pub WellFormed : Tables → Type 0
WellFormed b = (ch : ℕ) → count ch (flatten b.subs) + count ch b.all ≤ one_if (ltb ch b.next)

pub count-append : (ch : ℕ) (xs ys : List ℕ) → count ch (xs ++ ys) ≡ count ch xs + count ch ys
count-append ch [] ys = omega arith
count-append ch (x ∷ xs) ys = omega (arith, count-append ch xs ys)

count-remove : (ch x : ℕ) (xs : List ℕ) → count ch (remove x xs) ≤ count ch xs
unfolding remove
count-remove ch x [] = omega arith
count-remove ch x (y ∷ ys) = by_test (y == x) (count-remove ch x ys)
  where
    by_test :
        (b : Bool)
        → count ch (remove x ys) ≤ count ch ys
        → count ch (if b then remove x ys else y ∷ remove x ys) ≤ one_if (y == ch) + count ch ys
    by_test true h = omega (arith, h)
    by_test false h = omega (arith, h)

count-add_channel :
    (ch n : ℕ) (uid : String) (subs : List (String × List ℕ))
    → count ch (flatten (add_channel uid n subs)) ≡ one_if (n == ch) + count ch (flatten subs)
unfolding add_channel
count-add_channel ch n uid [] = omega arith
count-add_channel ch n uid ((u, chs) ∷ subs) = by_test (u === uid) (count-add_channel ch n uid subs)
  where
    by_test :
        (b : Bool)
        → count ch (flatten (add_channel uid n subs)) ≡ one_if (n == ch) + count ch (flatten subs)
        → count ch (flatten (if b then (u, n ∷ chs) ∷ subs else (u, chs) ∷ add_channel uid n subs))
          ≡ one_if (n == ch) + count ch (chs ++ flatten subs)
    by_test true h = refl
    by_test false h = omega (
      arith,
      h,
      count-append ch chs (flatten (add_channel uid n subs)),
      count-append ch chs (flatten subs),
    )

count-remove_channel :
    (ch n : ℕ) (uid : String) (subs : List (String × List ℕ))
    → count ch (flatten (remove_channel uid n subs)) ≤ count ch (flatten subs)
unfolding remove_channel
count-remove_channel ch n uid [] = omega arith
count-remove_channel ch n uid ((u, chs) ∷ subs) =
    by_test (u === uid) (is_cons (remove n chs)) (count-remove_channel ch n uid subs)
      (count-remove ch n chs) (count-append ch (remove n chs) (flatten subs))
      (count-append ch chs (flatten subs))
      (count-append ch chs (flatten (remove_channel uid n subs)))
  where
    by_test :
        (b d : Bool)
        → count ch (flatten (remove_channel uid n subs)) ≤ count ch (flatten subs)
        → count ch (remove n chs) ≤ count ch chs
        → count ch (remove n chs ++ flatten subs)
          ≡ count ch (remove n chs) + count ch (flatten subs)
        → count ch (chs ++ flatten subs) ≡ count ch chs + count ch (flatten subs)
        → count ch (chs ++ flatten (remove_channel uid n subs))
          ≡ count ch chs + count ch (flatten (remove_channel uid n subs))
        → count ch (
            flatten (
              if b
              then (if d then (u, remove n chs) ∷ subs else subs)
              else (u, chs) ∷ remove_channel uid n subs))
          ≤ count ch (chs ++ flatten subs)
    by_test true true h k x y z = omega (arith, k, x, y)
    by_test true false h k x y z = omega (arith, y)
    by_test false d h k x y z = omega (arith, h, y, z)

-- What a channel that is about to be named brings.
pub swapped : (x ch : ℕ) → (x == ch) ≡ false → (ch == x) ≡ false
swapped x ch h = ground arith

pub next_number : (n : ℕ) → 1 + n ≡ suc n
next_number n = omega arith

pub no_number : (n : ℕ) → 0 + n ≡ n
no_number n = omega arith

fresh :
    (total n ch : ℕ)
    → total ≤ one_if (ltb ch n)
    → one_if (n == ch) + total ≤ one_if (ltb ch (suc n))
fresh total n ch h = ground (arith, h)

pub data Operation : Type 0 where
  subscribes_all : Operation
  unsubscribes_all : ℕ → Operation
  subscribes : String → Operation
  unsubscribes : String → ℕ → Operation
  publishes : String → Event → Operation

abbrev pub apply : Operation → Tables → Tables
apply subscribes_all b = subscribe_all b
apply (unsubscribes_all ch) b = unsubscribe_all ch b
apply (subscribes uid) b = subscribe uid b
apply (unsubscribes uid ch) b = unsubscribe uid ch b
apply (publishes uid e) b = publish uid e b

-- Subscribing, unsubscribing and publishing keep every channel subscribed at most once, and none
-- that does not exist yet.
pub apply-WellFormed : (op : Operation) (b : Tables) → WellFormed b → WellFormed (apply op b)
unfolding subscribe_all unsubscribe_all subscribe unsubscribe publish
apply-WellFormed subscribes_all b w ch =
    let h = fresh (count ch (flatten b.subs) + count ch b.all) b.next ch (w ch) in omega (arith, h)
apply-WellFormed (unsubscribes_all n) b w ch = omega (arith, w ch, count-remove ch n b.all)
apply-WellFormed (subscribes uid) b w ch =
    let h = fresh (count ch (flatten b.subs) + count ch b.all) b.next ch (w ch) in
    omega (arith, h, count-add_channel ch b.next uid b.subs)
apply-WellFormed (unsubscribes uid n) b w ch =
    omega (arith, w ch, count-remove_channel ch n uid b.subs)
apply-WellFormed (publishes uid e) b w ch = w ch

-- A function applied `n` times.
