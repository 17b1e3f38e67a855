-- ===== src/Extauth/Hooks/Written.antt =====
-- extauth-hook-AD.py: what `refresh_all` writes.
use xen_api.Base.{◌≡◌, refl, Bool, true, false, none, List, ◌∷◌, inl, inr, ◌⊎◌, if◌then◌else◌}
use xen_api.Base.Bytes.{codes, bytes_eq as text_eq}
use xen_api.Base.Utf8.{Text}
use xen_api.Base.Exec.{ok, err}
use xen_api.Extauth.KeyValue.{configure}
use xen_api.Extauth.Subjects.{users_list, groups_list, subject_lines}
use xen_api.Extauth.Files.{
  Outcome, ran, os_error, Failure, Host, Outside, hcp_users, hcp_groups, pam_sshd, nsswitch,
  sshd_config, pam_winbind, put, install, install_dynamic, apply_key_value, nss_updates,
  sshd_updates, winbind_updates, run_cmd, apply_sshd, ad_pam, no_ad_pam, apply_static_pam,
}
use xen_api.Extauth.Hooks.{apply_dynamic, refresh_all}
use xen_api.Extauth.Hooks.Build.{Existing, AdminRole, manager}
use xen_api.Extauth.Hooks.Refreshed.{content, Elsewhere, Refreshed, reload}

pub Outcome-cases :
    (c : Outcome) → (c ≡ ran) ⊎ ((c ≡ os_error) ⊎ (c ≡ Outcome.called_process_error))
Outcome-cases ran = inl refl
Outcome-cases os_error = inr (inl refl)
Outcome-cases Outcome.called_process_error = inr (inr refl)

-- The files before sshd is reloaded, and after all the writes of a refresh
unfoldable pub reloading : Bool → List Text → List Text → Host → Host
reloading e nss sshd h =
    let h' =
      put sshd_config (content (configure (codes " ") (sshd_updates e) sshd))
        (put nsswitch (content (configure (codes ": ") (nss_updates e) nss)) h) in
    record h' { commands = reload ∷ h'.commands }

unfoldable pub written : Outside → Bool → Text → List Text → List Text → List Text → Host → Host
written o e role nss sshd winbind h =
    put pam_winbind (content (configure (codes " = ") winbind_updates winbind)) (
      put pam_sshd (content (if e then ad_pam else no_ad_pam)) (
        put hcp_groups (if e then content (subject_lines (o.session) groups_list role) else none) (
          put hcp_users (if e then content (subject_lines (o.session) users_list role) else none)
            (reloading e nss sshd h))))

pub refresh_all-written :
    (o : Outside) (e : Bool) (role : Text) (nss sshd winbind : List Text) (h : Host) (c : Outcome)
    → (o.check_output) reload ≡ c
    → (c ≡ ran) ⊎ (c ≡ os_error)
    → refresh_all o (manager e role nss sshd winbind) h
      ≡ (ok tt, written o e role nss sshd winbind h)
unfolding refresh_all apply_sshd run_cmd apply_dynamic apply_static_pam apply_key_value install
    install_dynamic manager written reloading configure
refresh_all-written o true role nss sshd winbind h c is (inl went) = rw (is, went) refl
refresh_all-written o false role nss sshd winbind h c is (inl went) = rw (is, went) refl
refresh_all-written o true role nss sshd winbind h c is (inr went) = rw (is, went) refl
refresh_all-written o false role nss sshd winbind h c is (inr went) = rw (is, went) refl

pub refresh_all-stopped :
    (o : Outside) (e : Bool) (role : Text) (nss sshd winbind : List Text) (h : Host)
    → (o.check_output) reload ≡ Outcome.called_process_error
    → refresh_all o (manager e role nss sshd winbind) h
      ≡ (err Failure.called_process_error, reloading e nss sshd h)
unfolding refresh_all apply_sshd run_cmd apply_key_value install manager reloading configure
refresh_all-stopped o e role nss sshd winbind h failed = rw failed refl

pub written-Elsewhere :
    (o : Outside) (e : Bool) (role : Text) (nss sshd winbind : List Text) (h : Host)
    → Elsewhere h (written o e role nss sshd winbind h)
unfolding written reloading put
written-Elsewhere o e role nss sshd winbind h p a b c d f g = rw (a, b, c, d, f, g) refl

pub stopped-Elsewhere :
    (e : Bool) (nss sshd : List Text) (h : Host) (p : Text)
    → text_eq p nsswitch ≡ false
    → text_eq p sshd_config ≡ false
    → ((reloading e nss sshd h).files) p ≡ (h.files) p
unfolding reloading put
stopped-Elsewhere e nss sshd h p a b = rw (a, b) refl

pub written-Refreshed :
    (o : Outside) (e : Bool) (role : Text) (nss sshd winbind : List Text) (h : Host)
    → AdminRole o role
    → Existing h nsswitch nss
    → Existing h sshd_config sshd
    → Existing h pam_winbind winbind
    → Refreshed o e h (written o e role nss sshd winbind h)
unfolding written put text_eq reloading
written-Refreshed o e role nss sshd winbind h is_role a b c = (
  role,
  nss,
  sshd,
  winbind,
  is_role,
  a,
  b,
  c,
  refl,
  refl,
  refl,
  refl,
  refl,
  refl,
  written-Elsewhere o e role nss sshd winbind h,
)
