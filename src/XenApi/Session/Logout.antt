-- ===== src/XenApi/Session/Logout.antt =====
-- XenAPI.py: a logout, and what requests behind it send.
use xen_api.Base.{
  ℕ, zero, suc, ◌+◌, Bool, true, false, Option, none, some, List, [], ◌∷◌, ◌++◌, ◌||◌, ◌≡◌, refl,
  sym, ap, ◌∙◌, if◌then◌else◌, inl, inr, ◌⊎◌,
}
use xen_api.Base.Bytes.{codes, bytes_eq as text_eq}
use xen_api.Base.Utf8.{Text}
use xen_api.Base.Words.Split.{starts_with}
use xen_api.Base.Exec.{Result, ok, err, pure, gets, continue, ◌>>=◌, ◌>>◌}
use xen_api.XenApi.Session.{
  Xapi, Error, Session, Act, Answer, returned, faulted, timed_out, socket_failed, parse_result,
  remote, get_attr, send, or_fail, lift, invoke, log_in_again, retry_loop, xenapi_request,
  call_remote, or_again, forget, forget_after, log_out, send_logout,
}
use xen_api.XenApi.Session.Answered.{IsMethod}
use xen_api.XenApi.Session.Answered.{IsMethod}

module _ {W V : Type 0} (xapi : Xapi W V) where
  -- The object is not logged in.
  abbrev pub LoggedOut : Session W V → Type 0
  LoggedOut s = (s.session ≡ xapi.null) × (s.last_login ≡ none)

  forget_after-LoggedOut :
      (p : Result Error (Option V) × Session W V) → LoggedOut ((forget_after xapi p).1)
  unfolding forget
  forget_after-LoggedOut (ok _, s) = (refl, refl)
  forget_after-LoggedOut (err e, s) = (refl, refl)

  log_out-LoggedOut : (s : Session W V) → LoggedOut ((log_out xapi s).1)
  unfolding log_out
  log_out-LoggedOut s = forget_after-LoggedOut (send_logout xapi s)

  continue-calls :
      {A B : Type 0}
      → (f : A → Act xapi B) (r : Result Error A) (s : Session W V)
      → ((a : A) → ((f a s).1.calls ≡ s.calls) × ((f a s).1.last_login ≡ s.last_login))
      → ((continue f r s).1.calls ≡ s.calls) × ((continue f r s).1.last_login ≡ s.last_login)
  continue-calls f (ok a) s same = same a
  continue-calls f (err e) s same = (refl, refl)

  call_remote-calls :
      (name : Text) (params : List V) (s : Session W V)
      → ((call_remote xapi name params s).1.calls ≡ (name, params) ∷ s.calls)
        × ((call_remote xapi name params s).1.last_login ≡ s.last_login)
  unfolding call_remote send
  call_remote-calls name params s =
      go ((xapi.answer) name params s.world).0 (record s {
        world = ((xapi.answer) name params s.world).1;
        calls = (name, params) ∷ s.calls;
      })
    where
      read :
          (p : Result Error (Option V)) (s1 : Session W V)
          → ((lift xapi p s1).1.calls ≡ s1.calls) × ((lift xapi p s1).1.last_login ≡ s1.last_login)
      read (ok o) s1 = (refl, refl)
      read (err e) s1 = (refl, refl)

      go :
          (a : Answer V) (s1 : Session W V)
          → (((or_fail xapi a >>= λ r. lift xapi (parse_result r)) s1).1.calls ≡ s1.calls)
            × (((or_fail xapi a >>= λ r. lift xapi (parse_result r)) s1).1.last_login
                ≡ s1.last_login)
      go (returned r) s1 = read (parse_result r) s1
      go (faulted c) s1 = (refl, refl)
      go timed_out s1 = (refl, refl)
      go socket_failed s1 = (refl, refl)

  retry_loop-LoggedOut :
      (tries : ℕ) (name : Text) (params : List V) (s : Session W V)
      → get_attr name ≡ remote name
      → s.last_login ≡ none
      → (retry_loop xapi (suc tries) name params s).1.calls ≡ (name, s.session ∷ params) ∷ s.calls
  unfolding retry_loop invoke
  retry_loop-LoggedOut tries name params s plain out =
      let (made, kept) = call_remote-calls name (s.session ∷ params) s in
      rw plain (go (call_remote xapi name (s.session ∷ params) s) made (kept ∙ out))
    where
      go :
          (p : Result Error (Option V) × Session W V)
          → p.1.calls ≡ (name, s.session ∷ params) ∷ s.calls
          → p.1.last_login ≡ none
          → (continue
              (λ o. or_again xapi o (
                gets (λ s. s.last_login)
                >>= log_in_again xapi
                >> retry_loop xapi tries name params))
              (p.0)
              (p.1)).1.calls
            ≡ (name, s.session ∷ params) ∷ s.calls
      go (err e, s1) made none_kept = made
      go (ok (some v), s1) made none_kept = made
      go (ok none, s1) made none_kept = rw none_kept made

  continue-pure :
      {A B : Type 0}
      → (g : A → B) (r : Result Error A) (s : Session W V)
      → (continue {E = Error} (λ a. pure (g a)) r s).1 ≡ s
  continue-pure g (ok a) s = refl
  continue-pure g (err e) s = refl

  xenapi_request-log_out :
      (ps : List V) (s : Session W V)
      → (xenapi_request xapi (codes "session.logout") ps s).1 ≡ (log_out xapi s).1
  unfolding xenapi_request starts_with xen_api.Base.Words.behind text_eq
  xenapi_request-log_out ps s = continue-pure (λ _. none) (log_out xapi s).0 (log_out xapi s).1

  method-LoggedOut :
      (name : Text) (params : List V) (s : Session W V)
      → IsMethod name
      → LoggedOut s
      → (xenapi_request xapi name params s).1.calls ≡ (name, xapi.null ∷ params) ∷ s.calls
  unfolding xenapi_request
  method-LoggedOut name params s (no_login, no_logout, plain) (empty, out) =
      rw (no_login, no_logout)
        (ap (λ x. x.calls)
            (continue-pure some (retry_loop xapi 3 name params s).0
              (retry_loop xapi 3 name params s).1)
          ∙ retry_loop-LoggedOut 2 name params s plain out
          ∙ ap (λ x. (name, x ∷ params) ∷ s.calls) empty)

  -- A request behind a logout, whether the logout went through or not, sends its method once, without a
  -- session, and nothing else: the parameters of the last login are not sent again.
  pub xenapi_request-LoggedOut :
      (name : Text) (params ps : List V) (s : Session W V)
      → IsMethod name
      → let s1 = (xenapi_request xapi (codes "session.logout") ps s).1 in
        (xenapi_request xapi name params s1).1.calls ≡ (name, xapi.null ∷ params) ∷ s1.calls
  xenapi_request-LoggedOut name params ps s method =
      rw (xenapi_request-log_out ps s)
        (method-LoggedOut name params (log_out xapi s).1 method (log_out-LoggedOut s))
