-- ===== src/Broadcaster/Subscribers.antt =====
-- broadcaster.go: the subscriber tables. A channel is named by a number, which stands for the
-- identity that `make` gives it; its buffer is the list of events not yet received. `subs` is an
-- association list with one entry for each uid, and a set of channels is a list. Every operation
-- holds the lock for its change of the tables; Publish sends after it released the lock, to the
-- channels that it saw under it.
use sudo_service.Prelude.{
  ℕ, suc, String, List, [], ◌∷◌, ◌++◌, length, ltb, is_cons, ◌==◌, ◌===◌, if◌then◌else◌,
}
use sudo_service.Broadcaster.{Event}

pub record Channel : Type 0 where
  pub capacity : ℕ
  pub buffer : List Event

pub record Tables : Type 0 where
  pub next : ℕ
  pub subs : List (String × List ℕ)
  pub all : List ℕ
  pub channels : ℕ → Channel

-- `m[uid]`, the nil map being empty.
unfoldable pub channels_of : String → List (String × List ℕ) → List ℕ
channels_of uid [] = []
channels_of uid ((u, chs) ∷ subs) = if u === uid then chs else channels_of uid subs

unfoldable pub add_channel : String → ℕ → List (String × List ℕ) → List (String × List ℕ)
add_channel uid ch [] = (uid, ch ∷ []) ∷ []
add_channel uid ch ((u, chs) ∷ subs) =
    let rest = add_channel uid ch subs in
    if u === uid then (u, ch ∷ chs) ∷ subs else (u, chs) ∷ rest

unfoldable pub remove : ℕ → List ℕ → List ℕ
remove ch [] = []
remove ch (x ∷ xs) = let rest = remove ch xs in if x == ch then rest else x ∷ rest

-- An entry that becomes empty is dropped.
unfoldable pub remove_channel : String → ℕ → List (String × List ℕ) → List (String × List ℕ)
unfolding remove
remove_channel uid ch [] = []
remove_channel uid ch ((u, chs) ∷ subs) =
    let rest = remove_channel uid ch subs in
    let left = remove ch chs in
    if u === uid then (if is_cons left then (u, left) ∷ subs else subs) else (u, chs) ∷ rest

abbrev pub set_channel : ℕ → Channel → (ℕ → Channel) → ℕ → Channel
set_channel ch c channels i = if i == ch then c else channels i

-- `make(chan Event, n)`.
abbrev pub open_channel : ℕ → Tables → Tables
open_channel n b = record b {
  next = suc (b.next);
  channels = set_channel b.next (record { capacity = n; buffer = [] }) b.channels;
}

unfoldable pub subscribe_all : Tables → Tables
subscribe_all b = record (open_channel 32 b) { all = b.next ∷ b.all }

unfoldable pub unsubscribe_all : ℕ → Tables → Tables
unsubscribe_all ch b = record b { all = remove ch b.all }

unfoldable pub subscribe : String → Tables → Tables
subscribe uid b = record (open_channel 8 b) { subs = add_channel uid b.next b.subs }

unfoldable pub unsubscribe : String → ℕ → Tables → Tables
unsubscribe uid ch b = record b { subs = remove_channel uid ch b.subs }

-- `select { case ch <- e: default: }`: a full buffer drops the event.
abbrev pub try_send : Event → Channel → Channel
try_send e c =
    if ltb (length c.buffer) c.capacity then record c { buffer = c.buffer ++ e ∷ [] } else c

unfoldable pub send_each : Event → List ℕ → (ℕ → Channel) → ℕ → Channel
send_each e [] channels = channels
send_each e (ch ∷ chs) channels =
    send_each e chs (set_channel ch (try_send e (channels ch)) channels)

unfoldable pub recipients : String → Tables → List ℕ
unfolding channels_of
recipients uid b = channels_of uid b.subs ++ b.all

unfoldable pub publish : String → Event → Tables → Tables
unfolding send_each recipients
publish uid e b = record b {
  channels = send_each (record e { uid = uid }) (recipients uid b) b.channels;
}
