-- ===== src/Tests/XenApi.antt =====
-- A xapi whose sessions are numbers: a login opens the next, and closes the one before.
use xen_api.Base.{
  ℕ, suc, ◌+◌, ◌≤◌, ◌≡◌, refl, Option, some, none, List, [], ◌∷◌, ◌++◌, ◌==◌, if◌then◌else◌,
}
use xen_api.Base.Bytes.{codes, bytes_eq as text_eq}
use xen_api.Base.Utf8.{Text}
use xen_api.Base.Words.Split.{starts_with}
use xen_api.Base.Exec.{ok}
use xen_api.XenApi.Session.{
  Reply, struct, returned, Answer, Xapi, Session, xenapi_request, parse_result, get_attr,
}
use xen_api.XenApi.Session.Calls.{Makes, xenapi_request-Makes}
use xen_api.XenApi.Session.Answered.{LastCall, xenapi_request-LastCall}
use xen_api.XenApi.Session.Recovery.{recovered, xenapi_request-recovered}
use xen_api.XenApi.Session.Logout.{xenapi_request-LoggedOut}

abbrev value : ℕ → Reply ℕ
value n = struct (some (codes "Success")) (some n) none

abbrev invalid : Reply ℕ
invalid = struct (some (codes "Failure")) none (some (codes "SESSION_INVALID" ∷ []))

abbrev serve : Text → List ℕ → ℕ → Answer ℕ × ℕ
serve name [] w = (returned invalid, w)
serve name (s ∷ ps) w =
    if starts_with (codes "session.login") name
    then (returned (value (suc w)), suc w)
    else (returned (if s == w then value 42 else invalid), w)

abbrev toy : Xapi ℕ ℕ
toy = record { null = 0; answer = serve }

-- Session 3 was opened, and xapi is at session 7.
abbrev expired : Session ℕ ℕ
expired = record {
  session = 3;
  last_login = some (codes "login_with_password", 5 ∷ []);
  api_version = none;
  world = 7;
  calls = [];
}

abbrev list_vms : Text
list_vms = codes "VM.get_all"

xenapi_request-Makes_example : Makes toy 6 (xenapi_request toy list_vms [])
xenapi_request-Makes_example = xenapi_request-Makes toy list_vms []

xenapi_request-recovered_example :
    xenapi_request toy list_vms [] expired
    ≡ (ok (some 42), recovered toy expired list_vms (codes "login_with_password") (5 ∷ []) [] 8 8)
unfolding parse_result get_attr starts_with text_eq xen_api.Base.Words.behind
xenapi_request-recovered_example =
    xenapi_request-recovered toy list_vms (codes "login_with_password") [] (5 ∷ []) expired invalid
      (value 8) (value 42) 7 8 8 8 42 (refl, refl, refl) refl refl refl refl refl refl refl

xenapi_request-LastCall_example :
    LastCall toy list_vms [] 42
      (recovered toy expired list_vms (codes "login_with_password") (5 ∷ []) [] 8 8)
unfolding get_attr starts_with text_eq xen_api.Base.Words.behind
xenapi_request-LastCall_example =
    xenapi_request-LastCall toy list_vms [] 42 expired
      (recovered toy expired list_vms (codes "login_with_password") (5 ∷ []) [] 8 8)
      (refl, refl, refl) xenapi_request-recovered_example

abbrev logged_out : Session ℕ ℕ
logged_out = (xenapi_request toy (codes "session.logout") [] expired).1

xenapi_request-LoggedOut_example :
    (xenapi_request toy list_vms [] logged_out).1.calls ≡ (list_vms, 0 ∷ []) ∷ logged_out.calls
unfolding get_attr starts_with text_eq xen_api.Base.Words.behind
xenapi_request-LoggedOut_example =
    xenapi_request-LoggedOut toy list_vms [] [] expired (refl, refl, refl)
