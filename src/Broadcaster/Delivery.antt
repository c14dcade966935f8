-- ===== src/Broadcaster/Delivery.antt =====
-- Who receives what is published.
use sudo_service.Prelude.{
  Bool-cases, ==_iff, ===_refl, ℕ, zero, suc, ◌+◌, ◌≤◌, String, List, [], ◌∷◌, ◌++◌, Bool, true,
  false, ltb, ◌==◌, ◌===◌, ◌≡◌, refl, sym, ap, ◌∙◌, subst, arith, if◌then◌else◌, inl, inr, ◌⊎◌,
}
use sudo_service.Broadcaster.{Event}
use sudo_service.Broadcaster.Subscribers.{
  Channel, Tables, channels_of, add_channel, set_channel, subscribe, try_send, send_each,
  recipients, publish,
}
use sudo_service.Broadcaster.Audience.{is_subscribed, recipients-is_subscribed}
use sudo_service.Broadcaster.Subscribed.{
  one_if, count, flatten, WellFormed, count-append, swapped, next_number, no_number,
  apply-WellFormed, subscribes,
}

abbrev times : ℕ → (Channel → Channel) → Channel → Channel
times zero f c = c
times (suc n) f c = times n f (f c)

same : (x : ℕ) → (x == x) ≡ true
same x = ground arith

-- What is read at `ch` after a send at `x`.
set_read :
    (f : Channel → Channel) (channels : ℕ → Channel) (x ch : ℕ)
    → set_channel x (f (channels x)) channels ch
      ≡ (if x == ch then f (channels ch) else channels ch)
set_read f channels x ch = by_test (Bool-cases (x == ch))
  where
    at_same :
        set_channel x (f (channels x)) channels x ≡ (if x == x then f (channels x) else channels x)
    at_same =
        ap (λ b. if b then f (channels x) else channels x) (same x)
        ∙ sym (ap (λ b. if b then f (channels x) else channels x) (same x))

    by_test :
        ((x == ch) ≡ true) ⊎ ((x == ch) ≡ false)
        → set_channel x (f (channels x)) channels ch
          ≡ (if x == ch then f (channels ch) else channels ch)
    by_test (inl e) =
        subst
          (λ z.
            set_channel x (f (channels x)) channels z
            ≡ (if x == z then f (channels z) else channels z))
          ((==_iff x ch).0 e) at_same
    by_test (inr e) =
        ap (λ b. if b then f (channels x) else channels ch) (swapped x ch e)
        ∙ sym (ap (λ b. if b then f (channels ch) else channels ch) e)

times_one :
    (b : Bool) (n : ℕ) (f : Channel → Channel) (c : Channel)
    → times n f (if b then f c else c) ≡ times (one_if b + n) f c
times_one true n f c = sym (ap (λ k. times k f c) (next_number n))
times_one false n f c = sym (ap (λ k. times k f c) (no_number n))

send_each-times :
    (e : Event) (chs : List ℕ) (channels : ℕ → Channel) (ch : ℕ)
    → send_each e chs channels ch ≡ times (count ch chs) (try_send e) (channels ch)
unfolding send_each
send_each-times e [] channels ch = refl
send_each-times e (x ∷ chs) channels ch =
    send_each-times e chs (set_channel x (try_send e (channels x)) channels) ch
    ∙ (ap (times (count ch chs) (try_send e)) (set_read (try_send e) channels x ch)
        ∙ times_one (x == ch) (count ch chs) (try_send e) (channels ch))

channels_of-flatten :
    (ch : ℕ) (uid : String) (subs : List (String × List ℕ))
    → count ch (channels_of uid subs) ≤ count ch (flatten subs)
unfolding channels_of
channels_of-flatten ch uid [] = omega arith
channels_of-flatten ch uid ((u, chs) ∷ subs) =
    by_test (u === uid) (channels_of-flatten ch uid subs) (count-append ch chs (flatten subs))
  where
    by_test :
        (b : Bool)
        → count ch (channels_of uid subs) ≤ count ch (flatten subs)
        → count ch (chs ++ flatten subs) ≡ count ch chs + count ch (flatten subs)
        → count ch (if b then chs else channels_of uid subs) ≤ count ch (chs ++ flatten subs)
    by_test true h x = omega (arith, x)
    by_test false h x = omega (arith, h, x)

times_at_most_one :
    (n : ℕ) (f : Channel → Channel) (c : Channel)
    → n ≤ 1
    → times n f c ≡ (if ltb 0 n then f c else c)
times_at_most_one zero f c h = refl
times_at_most_one (suc zero) f c h = refl
times_at_most_one (suc (suc n)) f c h = absurd (omega (arith, h))

one_if_max : (b : Bool) → one_if b ≤ 1
one_if_max true = omega arith
one_if_max false = omega arith

recipients-once :
    (b : Tables) (uid : String) (ch : ℕ) → WellFormed b → count ch (recipients uid b) ≤ 1
unfolding recipients
recipients-once b uid ch w = omega (
  arith,
  w ch,
  one_if_max (ltb ch b.next),
  channels_of-flatten ch uid b.subs,
  count-append ch (channels_of uid b.subs) b.all,
)

publish-recipients :
    (b : Tables) (uid : String) (e : Event) (ch : ℕ)
    → WellFormed b
    → (publish uid e b).channels ch ≡ (
        if ltb 0 (count ch (recipients uid b))
        then try_send (record e { uid = uid }) (b.channels ch)
        else b.channels ch)
unfolding publish
publish-recipients b uid e ch w =
    send_each-times (record e { uid = uid }) (recipients uid b) b.channels ch
    ∙ times_at_most_one (count ch (recipients uid b)) (try_send (record e { uid = uid }))
        (b.channels ch) (recipients-once b uid ch w)

-- Where every channel is subscribed at most once, Publish sends the event, with its uid set,
-- exactly once to each channel that stands in the entry of the uid or among the subscribers to all,
-- and leaves every other channel alone; a full channel drops it.
pub publish-try_send :
    (b : Tables) (uid : String) (e : Event) (ch : ℕ)
    → WellFormed b
    → (publish uid e b).channels ch ≡ (
        if is_subscribed b uid ch
        then try_send (record e { uid = uid }) (b.channels ch)
        else b.channels ch)
publish-try_send b uid e ch w =
    publish-recipients b uid e ch w
    ∙ ap (λ t. if t then try_send (record e { uid = uid }) (b.channels ch) else b.channels ch)
        (recipients-is_subscribed b uid ch)

one_for_self : (n : ℕ) → one_if (n == n) ≡ 1
one_for_self n = ap one_if (same n)

counted : (n : ℕ) → 1 ≤ n → ltb 0 n ≡ true
counted n h = ground arith

-- A channel that was just opened has room.
opened :
    (b : Tables) (uid : String) (e : Event)
    → (try_send (record e { uid = uid }) ((subscribe uid b).channels b.next)).buffer
      ≡ record e { uid = uid } ∷ []
unfolding subscribe
opened b uid e =
    ap
      (λ t.
        (try_send (record e { uid = uid })
          (if t then record { capacity = 8; buffer = [] } else b.channels b.next)).buffer)
      (same b.next)

added :
    (uid : String) (n : ℕ) (subs : List (String × List ℕ))
    → 1 ≤ count n (channels_of uid (add_channel uid n subs))
unfolding channels_of add_channel
added uid n [] = found_first (uid === uid) (===_refl uid)
  where
    found_first : (b : Bool) → b ≡ true → 1 ≤ count n (if b then n ∷ [] else [])
    found_first true h = omega (arith, one_for_self n)
    found_first false h = ground (arith, h)
added uid n ((u, chs) ∷ subs) = by_test (u === uid) refl (added uid n subs)
  where
    by_test :
        (b : Bool)
        → (u === uid) ≡ b
        → 1 ≤ count n (channels_of uid (add_channel uid n subs))
        → 1
          ≤ count n (
              channels_of uid
                (if b then (u, n ∷ chs) ∷ subs else (u, chs) ∷ add_channel uid n subs))
    by_test true e h = in_entry (u === uid) e
      where
        in_entry : (d : Bool) → d ≡ true → 1 ≤ count n (if d then n ∷ chs else channels_of uid subs)
        in_entry true e = omega (arith, one_for_self n)
        in_entry false e = ground (arith, e)
    by_test false e h = in_rest (u === uid) e
      where
        in_rest :
            (d : Bool)
            → d ≡ false
            → 1 ≤ count n (if d then chs else channels_of uid (add_channel uid n subs))
        in_rest true e = ground (arith, e)
        in_rest false e = h

subscriber-counted :
    (b : Tables) (uid : String) → 1 ≤ count b.next (recipients uid (subscribe uid b))
unfolding recipients subscribe
subscriber-counted b uid = omega (
  arith,
  added uid b.next b.subs,
  count-append b.next (channels_of uid (add_channel uid b.next b.subs)) b.all,
)

-- Where every channel is subscribed at most once, an event that is published for a uid right after
-- a subscription to it is all that the new channel holds.
pub subscribe-publish :
    (b : Tables) (uid : String) (e : Event)
    → WellFormed b
    → ((publish uid e (subscribe uid b)).channels b.next).buffer ≡ record e { uid = uid } ∷ []
subscribe-publish b uid e w =
    ap (λ c. c.buffer)
      (publish-recipients (subscribe uid b) uid e b.next (apply-WellFormed (subscribes uid) b w))
    ∙ (ap
          (λ t.
            (if t
              then try_send (record e { uid = uid }) ((subscribe uid b).channels b.next)
              else (subscribe uid b).channels b.next).buffer)
          (counted (count b.next (recipients uid (subscribe uid b))) (subscriber-counted b uid))
        ∙ opened b uid e)
