-- ===== src/XenApi/Session.antt =====
-- python3/examples/XenAPI/XenAPI.py: `Session`, which logs in again when its session is no longer valid.
-- Xapi, behind the XML-RPC of Python's library, is a record of operations; values are of any type.
pub mod Calls
pub mod Logout
pub mod Answered
pub mod Recovery
use xen_api.Base.{
  ℕ, zero, suc, Bool, true, false, Option, none, some, List, [], ◌∷◌, ◌++◌, ◌||◌, ◌&&◌,
  if◌then◌else◌, map, not,
}
use xen_api.Base.Bytes.{codes, bytes_eq as text_eq}
use xen_api.Base.Utf8.{Text}
use xen_api.Base.Words.Split.{starts_with}
use xen_api.Base.Exec.{Exec, Result, ok, err, pure, raise, gets, modify, or_raise, ◌>>=◌, ◌>>◌}
use mathlib.Core.List.{reverse}

-- What a call gives back: a dict, with these of its entries, or another value, which may be a str.
pub data Reply (V : Type 0) : Type 0 where
  struct : Option Text → Option V → Option (List Text) → Reply V
  str other : Reply V

-- A call returns, or raises: a Fault of XML-RPC, or an error of the socket, a timeout or another.
pub data Answer (V : Type 0) : Type 0 where
  returned : Reply V → Answer V
  faulted : ℕ → Answer V
  timed_out socket_failed : Answer V

-- Xapi in some world; `null` is None.
pub record Xapi (W V : Type 0) : Type 0 where
  pub null : V
  pub answer : Text → List V → W → Answer V × W

pub data Error : Type 0 where
  fault : ℕ → Error
  failure : List Text → Error
  socket_error type_error attribute_error index_error not_implemented : Error

-- The attributes of the object, the world, and the calls that were made, the last one first.
pub record Session (W V : Type 0) : Type 0 where
  pub session : V
  pub last_login : Option (Text × List V)
  pub api_version : Option Text
  pub world : W
  pub calls : List (Text × List V)

-- `_parse_result`: a value, or none for `_RECONNECT_AND_RETRY`
abbrev pub parse_error : {V : Type 0} → Option (List Text) → Result Error (Option V)
parse_error none = err (fault 500)
parse_error (some []) = err index_error
parse_error (some (code ∷ details)) =
    if text_eq code (codes "SESSION_INVALID") then ok none else err (failure (code ∷ details))

abbrev pub parse_value : {V : Type 0} → Option V → Result Error (Option V)
parse_value none = err (fault 500)
parse_value (some v) = ok (some v)

unfoldable pub parse_result : {V : Type 0} → Reply V → Result Error (Option V)
parse_result str = err (fault 500)
parse_result other = err type_error
parse_result (struct none value description) = err type_error
parse_result (struct (some status) value description) =
    if text_eq status (codes "Success") then parse_value value else parse_error description

-- What `__getattr__` gives for a name.
pub data Attribute : Type 0 where
  handle xenapi logout magic : Attribute
  login remote : Text → Attribute

abbrev ends_with : Text → Text → Bool
ends_with suffix name = starts_with (reverse suffix) (reverse name)

unfoldable pub get_attr : Text → Attribute
get_attr name =
    if text_eq name (codes "handle")
    then handle
    else if text_eq name (codes "xenapi")
    then xenapi
    else if starts_with (codes "login") name || starts_with (codes "slave_local") name
    then login name
    else if text_eq name (codes "logout")
    then logout
    else if starts_with (codes "__") name && ends_with (codes "__") name
    then magic
    else remote name

module _ {W V : Type 0} (xapi : Xapi W V) where
  abbrev pub Act : Type 0 → Type 0
  Act A = Exec Error (Session W V) A

  -- A call over XML-RPC. Its outcome is returned, so that the caller tells the errors apart.
  unfoldable pub send : Text → List V → Act (Answer V)
  send name params s =
      let (a, w) = (xapi.answer) name params s.world in
      (ok a, record s { world = w; calls = (name, params) ∷ s.calls })

  abbrev pub or_fail : Answer V → Act (Reply V)
  or_fail (returned r) = pure r
  or_fail (faulted code) = raise (fault code)
  or_fail timed_out = raise socket_error
  or_fail socket_failed = raise socket_error

  -- In `_login`, a timeout is a Fault.
  abbrev pub or_time_out : Answer V → Act (Reply V)
  or_time_out timed_out = raise (fault 504)
  or_time_out a = or_fail a

  abbrev pub lift : Result Error (Option V) → Act (Option V)
  lift (ok o) = pure o
  lift (err e) = raise e

  -- `_login`
  unfoldable pub log_in : Text → List V → Act (Unit {0})
  log_in method params =
      send (codes "session." ++ method) params
      >>= or_time_out
      >>= (λ r. lift (parse_result r))
      >>= (λ o. or_raise o (fault 500))
      >>= (λ v.
          modify
            (λ s. record s { session = v; last_login = some (method, params); api_version = none }))

  -- The call of `_logout`, for the last login
  abbrev pub logout_call : Option (Text × List V) → V → Act (Answer V)
  logout_call none session = raise attribute_error
  logout_call (some (method, params)) session =
      if starts_with (codes "slave_local") method
      then send (codes "session.local_logout") (session ∷ [])
      else send (codes "session.logout") (session ∷ [])

  -- The `try` of `_logout`
  unfoldable pub send_logout : Act (Option V)
  send_logout = gets (λ s. s.last_login) >>= (λ last.
      gets (λ s. s.session)
      >>= (λ session. logout_call last session >>= or_fail >>= λ r. lift (parse_result r)))

  -- Its `finally`
  unfoldable pub forget : Session W V → Session W V
  forget s = record s { session = xapi.null; last_login = none; api_version = some (codes "1.1") }

  abbrev pub forget_after :
      Result Error (Option V) × Session W V → Result Error (Unit {0}) × Session W V
  forget_after (ok _, s) = (ok tt, forget s)
  forget_after (err e, s) = (err e, forget s)

  -- `_logout`; xenapi_request does not use what it returns.
  unfoldable pub log_out : Act (Unit {0})
  log_out s = forget_after (send_logout s)

  -- A method of xapi
  unfoldable pub call_remote : Text → List V → Act (Option V)
  call_remote name params = send name params >>= or_fail >>= λ r. lift (parse_result r)

  -- `_parse_result(getattr(self, methodname)(*full_params))`
  unfoldable pub invoke : Attribute → List V → Act (Option V)
  invoke handle params = raise type_error
  invoke xenapi params = raise attribute_error
  invoke logout params = log_out >> raise type_error
  invoke magic params = raise not_implemented
  invoke (login name) params = log_in name params >> raise type_error
  invoke (remote name) params = call_remote name params

  abbrev pub log_in_again : Option (Text × List V) → Act (Unit {0})
  log_in_again none = raise (fault 401)
  log_in_again (some (method, params)) = log_in method params

  -- The value, or what is done for `_RECONNECT_AND_RETRY`
  abbrev pub or_again : Option V → Act V → Act V
  or_again (some v) again = pure v
  or_again none again = again

  -- `while retry_count < 3`, for so many more tries
  unfoldable pub retry_loop : ℕ → Text → List V → Act V
  retry_loop zero name params = raise (fault 500)
  retry_loop (suc tries) name params =
      gets (λ s. s.session) >>= (λ session. invoke (get_attr name) (session ∷ params)) >>= (λ o.
        or_again o (gets (λ s. s.last_login) >>= log_in_again >> retry_loop tries name params))

  -- `none` for None
  unfoldable pub xenapi_request : Text → List V → Act (Option V)
  xenapi_request name params =
      if starts_with (codes "login") name
      then log_in name params >> pure none
      else if text_eq name (codes "logout") || text_eq name (codes "session.logout")
      then log_out >> pure none
      else (retry_loop 3 name params >>= λ v. pure (some v))

  -- The constructor
  unfoldable pub new_session : W → Session W V
  new_session w = record {
    session = xapi.null;
    last_login = none;
    api_version = some (codes "1.1");
    world = w;
    calls = [];
  }
