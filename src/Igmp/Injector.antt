-- ===== src/Igmp/Injector.antt =====
-- ocaml/xenopsd/scripts/igmp_query_injector.py: `check_and_inject`, over the events that xenstore reports.
use xen_api.Base.{ℕ, ◌/◌, ◌%◌, Bool, true, false, List, [], ◌∷◌, ◌||◌, if◌then◌else◌}
use xen_api.Base.Dict.{has_key, assign}
use xen_api.Base.Bytes.{codes, bytes_eq as text_eq}
use xen_api.Base.Utf8.{Text}
use xen_api.Base.Exec.{Result, ok, err}

-- A watch that fired: its path, its token, and what is read at the path then
pub record Event : Type 0 where
  pub path : Text
  pub token : Text
  pub state : Text

pub data Failure : Type 0 where
  key_error : Failure

-- The watches, each a path with an interface; the interfaces of which one end is connected; and the
-- interfaces that a query was injected to, the last one first.
pub record Injector : Type 0 where
  pub watches : List (Text × Text)
  pub vif_connected_set : List Text
  pub injected : List Text

unfoldable pub is_member : Text → List Text → Bool
is_member v [] = false
is_member v (w ∷ ws) = text_eq v w || is_member v ws

unfoldable pub discard : Text → List Text → List Text
discard v [] = []
discard v (w ∷ ws) = let rest = discard v ws in if text_eq v w then rest else w ∷ rest

unfoldable pub pop : Text → List (Text × Text) → List (Text × Text)
pop k [] = []
pop k ((k', v) ∷ ws) = let rest = pop k ws in if text_eq k k' then ws else (k', v) ∷ rest

-- How a step ends, and the state then
abbrev pub Outcome : Type 0
Outcome = Result Failure (Unit {0}) × Injector

-- A path that is not watched is a KeyError.
unfoldable pub unwatch : Text → Injector → Outcome
unwatch path s =
    if has_key path (s.watches)
    then (ok tt, record s { watches = pop path (s.watches) })
    else (err key_error, s)

-- The first end of an interface is kept in mind; with the second a query is injected.
unfoldable pub end_connected : Text → Injector → Injector
end_connected vif s =
    if is_member vif (s.vif_connected_set)
    then record s {
      vif_connected_set = discard vif (s.vif_connected_set);
      injected = vif ∷ s.injected;
    }
    else record s { vif_connected_set = vif ∷ s.vif_connected_set }

unfoldable pub handle : Event → Injector → Outcome
handle e s =
    if text_eq (e.state) (codes "4")
    then unwatch (e.path) (end_connected (e.token) s)
    else (ok tt, s)

abbrev pub no_watches : List (Text × Text) → Bool
no_watches [] = true
no_watches _ = false

abbrev pub and_then : Outcome → (Injector → Outcome) → Outcome
and_then (err e, s) go = (err e, s)
and_then (ok _, s) go = go s

-- The loop, for the events that come; it waits where no more come.
unfoldable pub check_and_inject : List Event → Injector → Outcome
check_and_inject [] s = (ok tt, s)
check_and_inject (e ∷ es) s =
    if no_watches (s.watches) then (ok tt, s) else and_then (handle e s) (check_and_inject es)

-- The watches of all interfaces, for the paths of their front and back ends
unfoldable pub watch_all :
    (Text → Text × Text) → List Text → List (Text × Text) → List (Text × Text)
watch_all paths [] watches = watches
watch_all paths (vif ∷ vifs) watches =
    watch_all paths vifs (assign ((paths vif).1) vif (assign ((paths vif).0) vif watches))

unfoldable pub start : (Text → Text × Text) → List Text → Injector
start paths vifs = record {
  watches = watch_all paths vifs [];
  vif_connected_set = [];
  injected = [];
}

-- The maximal response time in a packet
unfoldable pub mrcode : ℕ → ℕ
mrcode max_resp_time = max_resp_time / 100 % 256
