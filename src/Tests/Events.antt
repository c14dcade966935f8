-- ===== src/Tests/Events.antt =====
-- The theorems on the subscriber tables, at tables with two subscribers.
use sudo_service.Prelude.{[], ◌∷◌, ◌≡◌, if◌then◌else◌, arith}
use sudo_service.Types.{Phase}
use sudo_service.Broadcaster.{Event, phase_event}
use sudo_service.Broadcaster.Subscribers.{Tables, try_send, subscribe, publish}
use sudo_service.Broadcaster.Subscribed.{
  subscribes, subscribes_all, WellFormed, apply, apply-WellFormed,
}
use sudo_service.Broadcaster.Audience.{is_subscribed}
use sudo_service.Broadcaster.Delivery.{publish-try_send, subscribe-publish}
use sudo_service.Tests.Requests.{new_request}

abbrev no_tables : Tables
no_tables = record {
  next = 0;
  subs = [];
  all = [];
  channels = λ ch. record { capacity = 0; buffer = [] };
}

no_tables-WellFormed : WellFormed no_tables
no_tables-WellFormed ch = omega arith

abbrev two : Tables
two = apply subscribes_all (apply (subscribes "uid-1") no_tables)

two-WellFormed : WellFormed two
two-WellFormed =
    apply-WellFormed subscribes_all (apply (subscribes "uid-1") no_tables)
      (apply-WellFormed (subscribes "uid-1") no_tables no_tables-WellFormed)

abbrev event : Event
event = phase_event new_request Phase.pending

apply-WellFormed_example : WellFormed (apply (subscribes "uid-2") two)
apply-WellFormed_example = apply-WellFormed (subscribes "uid-2") two two-WellFormed

publish-try_send_example : (publish "uid-1" event two).channels 0 ≡ (
    if is_subscribed two "uid-1" 0
    then try_send (record event { uid = "uid-1" }) (two.channels 0)
    else two.channels 0)
publish-try_send_example = publish-try_send two "uid-1" event 0 two-WellFormed

subscribe-publish_example :
    ((publish "uid-2" event (subscribe "uid-2" two)).channels two.next).buffer
    ≡ record event { uid = "uid-2" } ∷ []
subscribe-publish_example = subscribe-publish two "uid-2" event two-WellFormed
