-- ===== src/XenApi/Session/Answered.antt =====
-- XenAPI.py: what a request that returns has been answered.
use xen_api.Base.{ℕ, zero, suc, false, Option, none, some, List, ◌∷◌, ◌||◌, ◌≡◌, refl, sym, ap, ◌∙◌}
use mathlib.Core.Path.{subst₂}
use xen_api.Base.Bytes.{codes, bytes_eq as text_eq}
use xen_api.Base.Utf8.{Text}
use xen_api.Base.Words.Split.{starts_with}
use xen_api.Base.Exec.{Result, ok, err, pure, gets, continue, bind-ok, ok_injective, ◌>>=◌, ◌>>◌}
use xen_api.XenApi.Session.{
  Xapi, Error, Session, Answer, returned, faulted, timed_out, socket_failed, Reply, parse_result,
  remote, get_attr, send, or_fail, lift, invoke, log_in_again, retry_loop, xenapi_request,
  call_remote, or_again,
}

-- The name of a method of xapi, neither a login nor a logout
abbrev pub IsMethod : Text → Type 0
IsMethod name =
    (starts_with (codes "login") name ≡ false)
    × ((text_eq name (codes "logout") || text_eq name (codes "session.logout")) ≡ false)
    × (get_attr name ≡ remote name)

module _ {W V : Type 0} (xapi : Xapi W V) where
  -- The call before this state was answered, and this is how the answer was read.
  abbrev pub Answered : Text → List V → Option V → Session W V → Session W V → Type 0
  Answered name params o s s' =
      (r : Reply V) × ((xapi.answer) name params s.world ≡ (returned r, s'.world))
      × (parse_result r ≡ ok o)
      × (s'.session ≡ s.session)
      × (s'.calls ≡ (name, params) ∷ s.calls)

  call_remote-Answered :
      (name : Text) (params : List V) (o : Option V) (s s' : Session W V)
      → call_remote xapi name params s ≡ (ok o, s')
      → Answered name params o s s'
  unfolding call_remote send
  call_remote-Answered name params o s s' e =
      go ((xapi.answer) name params s.world).0 ((xapi.answer) name params s.world).1 refl e
    where
      read :
          (r : Reply V) (w : W)
          → (xapi.answer) name params s.world ≡ (returned r, w)
          → (p : Result Error (Option V)) → parse_result r ≡ p
          → lift xapi p (record s { world = w; calls = (name, params) ∷ s.calls }) ≡ (ok o, s')
          → Answered name params o s s'
      read r w a (err f) q e = absurd (cc (ap (λ p. p.0) e))
      read r w a (ok o') q e =
          let t = ap (λ p. p.1) e in
          (
            r,
            a ∙ ap (λ x. (returned r, x.world)) t,
            q ∙ ap (λ p. p.0) e,
            sym (ap (λ x. x.session) t),
            sym (ap (λ x. x.calls) t),
          )

      go :
          (a : Answer V) (w : W)
          → (xapi.answer) name params s.world ≡ (a, w)
          → (or_fail xapi a >>= λ r. lift xapi (parse_result r))
              (record s { world = w; calls = (name, params) ∷ s.calls })
            ≡ (ok o, s')
          → Answered name params o s s'
      go (returned r) w a e = read r w a (parse_result r) refl e
      go (faulted c) w a e = absurd (cc (ap (λ p. p.0) e))
      go timed_out w a e = absurd (cc (ap (λ p. p.0) e))
      go socket_failed w a e = absurd (cc (ap (λ p. p.0) e))

  -- The state in which a call was made, and the state behind it, for a request that returns a value: the
  -- call was of its method, with the session that the object holds now before its parameters.
  abbrev pub LastCall : Text → List V → V → Session W V → Type 0
  LastCall name params v s' =
      (before : Session W V) × (s'.session ≡ before.session)
      × Answered name (s'.session ∷ params) (some v) before s'

  retry_loop-LastCall :
      (tries : ℕ) (name : Text) (params : List V) (v : V) (s s' : Session W V)
      → get_attr name ≡ remote name
      → retry_loop xapi tries name params s ≡ (ok v, s')
      → LastCall name params v s'
  unfolding retry_loop invoke
  retry_loop-LastCall zero name params v s s' plain e = absurd (cc (ap (λ p. p.0) e))
  retry_loop-LastCall (suc tries) name params v s s' plain e =
      after (λ s2 rest. retry_loop-LastCall tries name params v s2 s' plain rest)
        (call_remote xapi name (s.session ∷ params) s) refl (rw plain at e)
    where
      after :
          ((s2 : Session W V)
            → retry_loop xapi tries name params s2 ≡ (ok v, s')
            → LastCall name params v s')
          → (p : Result Error (Option V) × Session W V)
          → call_remote xapi name (s.session ∷ params) s ≡ p
          → continue
              (λ o. or_again xapi o (
                gets (λ s. s.last_login)
                >>= log_in_again xapi
                >> retry_loop xapi tries name params))
              (p.0)
              (p.1)
            ≡ (ok v, s')
          → LastCall name params v s'
      after later (err f, s1) q e = absurd (cc (ap (λ p. p.0) e))
      after later (ok (some v'), s1) q e =
          let (r, a, parsed, kept, made) =
            call_remote-Answered name (s.session ∷ params) (some v') s s1 q in
          let last : LastCall name params v' s1 = (
            s,
            kept,
            (r, rw kept a, parsed, kept, made ∙ ap (λ x. (name, x ∷ params) ∷ s.calls) (sym kept)),
          ) in
          subst₂ (LastCall name params) (ok_injective (ap (λ p. p.0) e)) (ap (λ p. p.1) e) last
      after later (ok none, s1) q e =
          let (_, s2, _, rest) =
            bind-ok (gets (λ s. s.last_login) >>= log_in_again xapi)
              (λ _. retry_loop xapi tries name params) s1 s' v e in
          later s2 rest

  -- If a request of a method returns a value, then the last call was of this method, it carried the
  -- session that the object holds now, and xapi answered it with this value.
  pub xenapi_request-LastCall :
      (name : Text) (params : List V) (v : V) (s s' : Session W V)
      → IsMethod name
      → xenapi_request xapi name params s ≡ (ok (some v), s')
      → LastCall name params v s'
  unfolding xenapi_request
  xenapi_request-LastCall name params v s s' (no_login, no_logout, plain) e =
      let (v', s1, looped, same) =
        bind-ok (retry_loop xapi 3 name params) (λ v. pure (some v)) s s' (some v)
          (rw (no_login, no_logout) at e) in
      subst₂ (LastCall name params) (cc (ok_injective (ap (λ p. p.0) same))) (ap (λ p. p.1) same)
        (retry_loop-LastCall 3 name params v' s s1 plain looped)
