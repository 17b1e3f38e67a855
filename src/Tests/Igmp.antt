-- ===== src/Tests/Igmp.antt =====
-- One interface whose ends get connected one after the other.
use xen_api.Base.{◌≡◌, refl, List, [], ◌∷◌}
use xen_api.Base.Dict.{assign, has_key}
use xen_api.Base.Bytes.{codes, bytes_eq}
use xen_api.Base.Utf8.{Text}
use xen_api.Base.Exec.{err}
use xen_api.Igmp.Injector.{
  Event, key_error, discard, check_and_inject, start, watch_all, handle, unwatch, end_connected,
  pop, is_member,
}
use xen_api.Igmp.Once.{Ends, check_and_inject-Phase}

abbrev state_paths : Text → Text × Text
state_paths vif = (b'f' ∷ vif, b'b' ∷ vif)

abbrev vif : Text
vif = codes "vif1.0"

abbrev event : Text → Text → Event
event path state = record { path = path; token = vif; state = state }

-- The second event of the front end comes after its watch was taken away.
abbrev events : List Event
events =
    event (b'f' ∷ vif) (codes "1")
    ∷ event (b'f' ∷ vif) (codes "4")
    ∷ event (b'f' ∷ vif) (codes "4")
    ∷ event (b'b' ∷ vif) (codes "4")
    ∷ []

check_and_inject_example :
    Ends
      (watch_all state_paths (vif ∷ []) [])
      events
      (check_and_inject events (start state_paths (vif ∷ [])))
unfolding watch_all assign bytes_eq
check_and_inject_example =
    check_and_inject-Phase state_paths (vif ∷ []) events (refl, (refl, (refl, (refl, tt))))

-- There it dies, with a query injected for one end.
late_event_fails : check_and_inject events (start state_paths (vif ∷ [])) ≡ (
  err key_error,
  record { watches = (b'b' ∷ vif, vif) ∷ []; vif_connected_set = []; injected = vif ∷ [] },
)
unfolding start handle watch_all assign bytes_eq unwatch has_key end_connected is_member pop
    check_and_inject discard
late_event_fails = refl
