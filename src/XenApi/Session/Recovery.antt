-- ===== src/XenApi/Session/Recovery.antt =====
-- XenAPI.py: requests whose session is no longer valid, and requests after a logout.
use xen_api.Base.{Option, none, some, List, ◌∷◌, ◌++◌, ◌≡◌, refl}
use xen_api.Base.Bytes.{codes}
use xen_api.Base.Utf8.{Text}
use xen_api.Base.Exec.{ok}
use xen_api.XenApi.Session.{
  Xapi, Session, returned, Reply, parse_result, send, log_in, invoke, retry_loop, xenapi_request,
  call_remote,
}
use xen_api.XenApi.Session.Answered.{IsMethod}

module _ {W V : Type 0} (xapi : Xapi W V) where
  call_remote-returned :
      (name : Text) (params : List V) (s : Session W V) (r : Reply V) (w : W) (o : Option V)
      → (xapi.answer) name params s.world ≡ (returned r, w)
      → parse_result r ≡ ok o
      → call_remote xapi name params s
        ≡ (ok o, record s { world = w; calls = (name, params) ∷ s.calls })
  unfolding call_remote send
  call_remote-returned name params s r w o answered parsed = rw (answered, parsed) refl

  log_in-returned :
      (method : Text) (params : List V) (s : Session W V) (r : Reply V) (w : W) (v : V)
      → (xapi.answer) (codes "session." ++ method) params s.world ≡ (returned r, w)
      → parse_result r ≡ ok (some v)
      → log_in xapi method params s ≡ (
        ok tt,
        record s {
          session = v;
          last_login = some (method, params);
          api_version = none;
          world = w;
          calls = (codes "session." ++ method, params) ∷ s.calls;
        },
      )
  unfolding log_in send
  log_in-returned method params s r w v answered parsed = rw (answered, parsed) refl

  -- The state after an expired session was replaced
  abbrev pub recovered : Session W V → Text → Text → List V → List V → V → W → Session W V
  recovered s name method ps params v1 w3 = record s {
    session = v1;
    last_login = some (method, ps);
    api_version = none;
    world = w3;
    calls =
        (name, v1 ∷ params)
        ∷ (codes "session." ++ method, ps)
        ∷ (name, s.session ∷ params)
        ∷ s.calls;
  }

  -- If xapi answers a request that the session is not valid, accepts the last login again, and answers the
  -- request with the new session with a value, then the request returns the value, after these three calls,
  -- and the object holds the new session.
  pub xenapi_request-recovered :
      (name method : Text) (params ps : List V) (s : Session W V) (r0 r1 r2 : Reply V)
      (w1 w2 w3 : W) (v1 v : V)
      → IsMethod name
      → s.last_login ≡ some (method, ps)
      → (xapi.answer) name (s.session ∷ params) s.world ≡ (returned r0, w1)
      → parse_result r0 ≡ ok none
      → (xapi.answer) (codes "session." ++ method) ps w1 ≡ (returned r1, w2)
      → parse_result r1 ≡ ok (some v1)
      → (xapi.answer) name (v1 ∷ params) w2 ≡ (returned r2, w3)
      → parse_result r2 ≡ ok (some v)
      → xenapi_request xapi name params s ≡ (ok (some v), recovered s name method ps params v1 w3)
  unfolding xenapi_request retry_loop invoke
  xenapi_request-recovered name method params ps s r0 r1 r2 w1 w2 w3 v1 v
        (no_login, no_logout, plain) last a0 p0 a1 p1 a2 p2 =
      let s1 = record s {
        last_login = some (method, ps);
        world = w1;
        calls = (name, s.session ∷ params) ∷ s.calls;
      } in
      let s2 = record s1 {
        session = v1;
        last_login = some (method, ps);
        api_version = none;
        world = w2;
        calls = (codes "session." ++ method, ps) ∷ s1.calls;
      } in
      rw
        (
          no_login,
          no_logout,
          plain,
          call_remote-returned name (s.session ∷ params) s r0 w1 none a0 p0,
          last,
          log_in-returned method ps s1 r1 w2 v1 a1 p1,
          call_remote-returned name (v1 ∷ params) s2 r2 w3 (some v) a2 p2,
        )
        refl
