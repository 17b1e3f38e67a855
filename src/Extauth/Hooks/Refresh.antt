-- ===== src/Extauth/Hooks/Refresh.antt =====
-- extauth-hook-AD.py: how a refresh of all the configuration ends.
use xen_api.Base.{◌≡◌, refl, Bool, List, inl, inr, ◌⊎◌}
use xen_api.Base.Bytes.{codes}
use xen_api.Base.Utf8.{Text}
use xen_api.Extauth.Files.{
  Outcome, ran, os_error, Host, Outside, nsswitch, sshd_config, pam_winbind,
}
use xen_api.Extauth.Hooks.{refresh_all, refresh_all_configurations, answer}
use xen_api.Extauth.Hooks.Build.{Existing, AdminRole, manager, Built, build_config-cases}
use xen_api.Extauth.Hooks.Refreshed.{reload, Ends}
use xen_api.Extauth.Hooks.Written.{
  Outcome-cases, refresh_all-written, refresh_all-stopped, stopped-Elsewhere, written-Refreshed,
}

-- A refresh of all the configuration, with AD enabled or disabled, ends in one of these ways. It answers
-- "True"; then the two lists have the lines of the subjects of the session, or are removed where AD is
-- disabled, the PAM file of sshd is the one for the mode, each of the three files of keys and values is
-- written from the lines that it had, and no other file has changed. Or it answers its message, and no
-- file has changed, or sshd could not be reloaded and only nsswitch.conf and sshd_config may have.
pub refresh_all_configurations-Ends :
    (o : Outside) (e : Bool) (h : Host) → Ends o e h (refresh_all_configurations o e h)
unfolding refresh_all_configurations Built
refresh_all_configurations-Ends o e h = elim (build_config-cases o e h) [
  | inl (f, bad) ↦ rw bad (inr (refl, inl refl))
  | inr (role, nss, sshd, winbind, built, is_role, nss_there, sshd_there, winbind_there) ↦
      rw built (
        ends role nss sshd winbind is_role nss_there sshd_there winbind_there
          (Outcome-cases ((o.check_output) reload)))
]
  where
    ends :
        (role : Text) (nss sshd winbind : List Text)
        → AdminRole o role
        → Existing h nsswitch nss
        → Existing h sshd_config sshd
        → Existing h pam_winbind winbind
        → ((o.check_output) reload ≡ ran)
          ⊎ (((o.check_output) reload ≡ os_error)
              ⊎ ((o.check_output) reload ≡ Outcome.called_process_error))
        → Ends o e h (
            answer
              (codes "Failed to refresh all configurations")
              (refresh_all o (manager e role nss sshd winbind) h))
    ends role nss sshd winbind is_role a b c (inl went) =
        rw (refresh_all-written o e role nss sshd winbind h _ refl (inl went))
          (inl (refl, written-Refreshed o e role nss sshd winbind h is_role a b c))
    ends role nss sshd winbind is_role a b c (inr (inl went)) =
        rw (refresh_all-written o e role nss sshd winbind h _ refl (inr went))
          (inl (refl, written-Refreshed o e role nss sshd winbind h is_role a b c))
    ends role nss sshd winbind is_role a b c (inr (inr failed)) =
        rw (refresh_all-stopped o e role nss sshd winbind h failed)
          (inr (refl, inr (failed, stopped-Elsewhere e nss sshd h)))
