-- ===== src/Extauth/Hooks/Lists.antt =====
-- extauth-hook-AD.py: the callbacks that only refresh the lists of users and groups.
use xen_api.Base.{◌≡◌, refl, Bool, true, false, inl, inr, ◌⊎◌}
use xen_api.Base.Bytes.{codes, bytes_eq as text_eq}
use xen_api.Base.Utf8.{Text}
use xen_api.Extauth.Subjects.{users_list, groups_list, subject_lines}
use xen_api.Extauth.Files.{Host, Outside, hcp_users, hcp_groups, put, install, install_dynamic}
use xen_api.Extauth.Hooks.{
  Hook, after_extauth_enable, after_xapi_initialize, after_subject_add, after_subject_remove,
  after_subject_update, after_roles_update, before_extauth_disable, dispatch, refresh_dynamic_pam,
  apply_dynamic,
}
use xen_api.Extauth.Hooks.Build.{AdminRole, Built, build_config-cases, manager}
use xen_api.Extauth.Hooks.Refreshed.{content}

-- The callbacks for subjects and roles
abbrev pub only_lists : Hook → Bool
only_lists after_extauth_enable = false
only_lists after_xapi_initialize = false
only_lists before_extauth_disable = false
only_lists _ = true

-- The ways in which a refresh of the lists can end
abbrev pub ListsEnd : Outside → Host → Text × Host → Type 0
ListsEnd o h (a, h') =
    ((a ≡ codes "True")
      × (role : Text) × AdminRole o role
      × ((h'.files) hcp_users ≡ content (subject_lines (o.session) users_list role))
      × ((h'.files) hcp_groups ≡ content (subject_lines (o.session) groups_list role))
      × (h'.commands ≡ h.commands)
      × ((p : Text)
          → text_eq p hcp_users ≡ false
          → text_eq p hcp_groups ≡ false
          → (h'.files) p ≡ (h.files) p))
    ⊎ ((a ≡ codes "Failed to refresh dynamic pam configuration") × (h' ≡ h))

refresh_dynamic_pam-ListsEnd : (o : Outside) (h : Host) → ListsEnd o h (refresh_dynamic_pam o h)
unfolding refresh_dynamic_pam Built apply_dynamic install_dynamic install put manager text_eq
refresh_dynamic_pam-ListsEnd o h = elim (build_config-cases o true h) [
  | inl (f, bad) ↦ rw bad (inr (refl, refl))
  | inr (role, nss, sshd, winbind, built, is_role, _, _, _) ↦
      rw built (inl (refl, role, is_role, refl, refl, refl, λ p a b. rw (a, b) refl))
]

-- The callbacks for subjects and roles end in one of two ways. They answer "True"; then the lists of users
-- and groups have the lines of the subjects of the session, and no other file has changed and no command
-- was run. Or they answer a message, and nothing has changed.
pub dispatch-ListsEnd :
    (o : Outside) (hook : Hook) (h : Host)
    → only_lists hook ≡ true
    → ListsEnd o h (dispatch o hook h)
unfolding dispatch
dispatch-ListsEnd o after_subject_add h only = refresh_dynamic_pam-ListsEnd o h
dispatch-ListsEnd o after_subject_remove h only = refresh_dynamic_pam-ListsEnd o h
dispatch-ListsEnd o after_subject_update h only = refresh_dynamic_pam-ListsEnd o h
dispatch-ListsEnd o after_roles_update h only = refresh_dynamic_pam-ListsEnd o h
dispatch-ListsEnd o after_extauth_enable h only = absurd (cc only)
dispatch-ListsEnd o after_xapi_initialize h only = absurd (cc only)
dispatch-ListsEnd o before_extauth_disable h only = absurd (cc only)
