-- ===== src/XenApi/Session/Calls.antt =====
-- XenAPI.py: how many calls a request makes.
use xen_api.Base.{
  ℕ, zero, suc, ◌+◌, ◌*◌, ◌≤◌, Option, none, some, List, [], ◌∷◌, ◌++◌, ◌||◌, ◌≡◌, refl, length,
  arith, Bool-cases, inl, inr,
}
use xen_api.Base.Bytes.{codes, bytes_eq as text_eq}
use xen_api.Base.Utf8.{Text}
use xen_api.Base.Words.Split.{starts_with}
use xen_api.Base.Exec.{Result, ok, err, gets, or_raise, continue, ◌>>=◌}
use xen_api.XenApi.Session.{
  Xapi, Error, fault, Session, Act, Answer, returned, faulted, timed_out, socket_failed,
  parse_result, Attribute, handle, xenapi, logout, magic, login, remote, get_attr, send, or_fail,
  or_time_out, lift, log_in, send_logout, forget, log_out, invoke, log_in_again, logout_call,
  call_remote, forget_after, or_again, retry_loop, xenapi_request,
}

module _ {W V : Type 0} (xapi : Xapi W V) where
  -- An act that makes so many calls at most
  pub record Makes {A : Type 0} (n : ℕ) (m : Act xapi A) : Type 0 where
    pub at : (s : Session W V) → length ((m s).1.calls) ≤ n + length s.calls

  quiet : {A : Type 0} → (n : ℕ) → (m : Act xapi A) → ((s : Session W V) → (m s).1 ≡ s) → Makes n m
  quiet n m same = record { at = λ s. rw (same s) (omega arith) }

  more : {A : Type 0} → (n k : ℕ) → (m : Act xapi A) → n ≤ k → Makes n m → Makes k m
  more n k m le p = record { at = λ s. omega (arith, le, p.at s) }

  continue-Makes :
      {A B : Type 0}
      → (n k : ℕ) (f : A → Act xapi B) → ((a : A) → Makes k (f a))
      → (r : Result Error A) (s' s : Session W V) → length s'.calls ≤ n + length s.calls
      → length ((continue f r s').1.calls) ≤ n + k + length s.calls
  continue-Makes n k f p (ok a) s' s h = omega (arith, h, (p a).at s')
  continue-Makes n k f p (err e) s' s h = omega (arith, h)

  bind-Makes :
      {A B : Type 0}
      → (n k : ℕ) → (m : Act xapi A) → (f : A → Act xapi B) → Makes n m
      → ((a : A) → Makes k (f a))
      → Makes (n + k) (m >>= f)
  bind-Makes n k m f p q = record { at = λ s. continue-Makes n k f q (m s).0 (m s).1 s (p.at s) }

  gets-Makes :
      {A B : Type 0}
      → (n : ℕ) (f : Session W V → A) (m : A → Act xapi B) → ((a : A) → Makes n (m a))
      → Makes n (gets f >>= m)
  gets-Makes n f m p = record { at = λ s. (p (f s)).at s }

  send-Makes : (name : Text) (params : List V) → Makes 1 (send xapi name params)
  unfolding send
  send-Makes name params = record { at = λ s. omega arith }

  or_fail-Makes : (a : Answer V) → Makes 0 (or_fail xapi a)
  or_fail-Makes (returned r) = quiet 0 _ (λ s. refl)
  or_fail-Makes (faulted c) = quiet 0 _ (λ s. refl)
  or_fail-Makes timed_out = quiet 0 _ (λ s. refl)
  or_fail-Makes socket_failed = quiet 0 _ (λ s. refl)

  or_time_out-Makes : (a : Answer V) → Makes 0 (or_time_out xapi a)
  or_time_out-Makes (returned r) = quiet 0 _ (λ s. refl)
  or_time_out-Makes (faulted c) = quiet 0 _ (λ s. refl)
  or_time_out-Makes timed_out = quiet 0 _ (λ s. refl)
  or_time_out-Makes socket_failed = quiet 0 _ (λ s. refl)

  lift-Makes : (r : Result Error (Option V)) → Makes 0 (lift xapi r)
  lift-Makes (ok o) = quiet 0 _ (λ s. refl)
  lift-Makes (err e) = quiet 0 _ (λ s. refl)

  or_raise-Makes : {A : Type 0} → (o : Option A) (e : Error) → Makes {A = A} 0 (or_raise o e)
  or_raise-Makes none e = quiet 0 _ (λ s. refl)
  or_raise-Makes (some a) e = quiet 0 _ (λ s. refl)

  log_in-Makes : (method : Text) (params : List V) → Makes 1 (log_in xapi method params)
  unfolding log_in
  log_in-Makes method params =
      bind-Makes 1 0 _ _
        (bind-Makes 1 0 _ _
          (bind-Makes 1 0 _ _
            (bind-Makes 1 0 _ _ (send-Makes (codes "session." ++ method) params) or_time_out-Makes)
            (λ r. lift-Makes (parse_result r)))
          (λ o. or_raise-Makes o (fault 500)))
        (λ v. record { at = λ s. omega arith })

  call_remote-Makes : (name : Text) (params : List V) → Makes 1 (call_remote xapi name params)
  unfolding call_remote
  call_remote-Makes name params =
      bind-Makes 1 0 _ _ (bind-Makes 1 0 _ _ (send-Makes name params) or_fail-Makes)
        (λ r. lift-Makes (parse_result r))

  logout_call-Makes :
      (last : Option (Text × List V)) (session : V) → Makes 1 (logout_call xapi last session)
  logout_call-Makes none session = quiet 1 _ (λ s. refl)
  logout_call-Makes (some (method, params)) session =
      elim (Bool-cases (starts_with (codes "slave_local") method)) [
        | inl local ↦ rw local (send-Makes (codes "session.local_logout") (session ∷ []))
        | inr other ↦ rw other (send-Makes (codes "session.logout") (session ∷ []))
      ]

  send_logout-Makes : Makes 1 (send_logout xapi)
  unfolding send_logout
  send_logout-Makes =
      gets-Makes 1 (λ s. s.last_login) _
        λ last.
          gets-Makes 1 (λ s. s.session) _
            λ session.
              bind-Makes 1 0 _ _ (bind-Makes 1 0 _ _ (logout_call-Makes last session) or_fail-Makes)
                (λ r. lift-Makes (parse_result r))

  forget_after-calls :
      (n : ℕ) (p : Result Error (Option V) × Session W V)
      → length (p.1.calls) ≤ n
      → length ((forget_after xapi p).1.calls) ≤ n
  unfolding forget
  forget_after-calls n (ok _, s) h = h
  forget_after-calls n (err e, s) h = h

  log_out-Makes : Makes 1 (log_out xapi)
  unfolding log_out
  log_out-Makes = record {
    at = λ s. forget_after-calls (1 + length s.calls) (send_logout xapi s) (send_logout-Makes.at s);
  }

  invoke-Makes : (a : Attribute) (params : List V) → Makes 1 (invoke xapi a params)
  unfolding invoke
  invoke-Makes handle params = quiet 1 _ (λ s. refl)
  invoke-Makes xenapi params = quiet 1 _ (λ s. refl)
  invoke-Makes magic params = quiet 1 _ (λ s. refl)
  invoke-Makes logout params = bind-Makes 1 0 _ _ log_out-Makes (λ _. quiet 0 _ (λ s. refl))
  invoke-Makes (login name) params =
      bind-Makes 1 0 _ _ (log_in-Makes name params) (λ _. quiet 0 _ (λ s. refl))
  invoke-Makes (remote name) params = call_remote-Makes name params

  log_in_again-Makes : (last : Option (Text × List V)) → Makes 1 (log_in_again xapi last)
  log_in_again-Makes none = quiet 1 _ (λ s. refl)
  log_in_again-Makes (some (method, params)) = log_in-Makes method params

  or_again-Makes : (n : ℕ) (o : Option V) (m : Act xapi V) → Makes n m → Makes n (or_again xapi o m)
  or_again-Makes n (some v) m p = quiet n _ (λ s. refl)
  or_again-Makes n none m p = p

  retry_loop-Makes :
      (tries : ℕ) (name : Text) (params : List V)
      → Makes (2 * tries) (retry_loop xapi tries name params)
  unfolding retry_loop
  retry_loop-Makes zero name params = quiet 0 _ (λ s. refl)
  retry_loop-Makes (suc tries) name params =
      more (1 + (1 + 2 * tries)) (2 * suc tries) _ (omega arith) (
        bind-Makes 1 (1 + 2 * tries) _ _
          (gets-Makes 1 (λ s. s.session) _
            (λ session. invoke-Makes (get_attr name) (session ∷ params)))
          (λ o. or_again-Makes (1 + 2 * tries) o _ (
            bind-Makes 1 (2 * tries) _ _ (gets-Makes 1 (λ s. s.last_login) _ log_in_again-Makes)
              (λ _. retry_loop-Makes tries name params))))

  -- A request makes at most six calls, whatever xapi answers: three of its method, each with at most one
  -- login behind it.
  pub xenapi_request-Makes :
      (name : Text) (params : List V) → Makes 6 (xenapi_request xapi name params)
  unfolding xenapi_request
  xenapi_request-Makes name params = elim (Bool-cases (starts_with (codes "login") name)) [
    | inl is_login ↦ rw is_login (
        more 1 6 _ (omega arith)
          (bind-Makes 1 0 _ _ (log_in-Makes name params) (λ _. quiet 0 _ (λ s. refl))))
    | inr other ↦
        elim (Bool-cases (text_eq name (codes "logout") || text_eq name (codes "session.logout"))) [
          | inl is_logout ↦
              rw (other, is_logout)
                (more 1 6 _ (omega arith)
                  (bind-Makes 1 0 _ _ log_out-Makes (λ _. quiet 0 _ (λ s. refl))))
          | inr plain ↦
              rw (other, plain)
                (bind-Makes 6 0 _ _ (retry_loop-Makes 3 name params) (λ v. quiet 0 _ (λ s. refl)))
        ]
  ]
