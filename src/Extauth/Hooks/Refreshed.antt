-- ===== src/Extauth/Hooks/Refreshed.antt =====
-- extauth-hook-AD.py: what a refresh of all the configuration is to leave in each file.
use xen_api.Base.{◌≡◌, Bool, false, Option, none, some, List, [], ◌∷◌, ◌⊎◌, if◌then◌else◌}
use xen_api.Base.Bytes.{Bytes, codes, bytes_eq as text_eq}
use xen_api.Base.Utf8.{Text, utf8_encode}
use xen_api.Base.Words.Split.{join_lines}
use xen_api.Extauth.KeyValue.{configure}
use xen_api.Extauth.Subjects.{users_list, groups_list, subject_lines}
use xen_api.Extauth.Files.{
  Outcome, Host, Outside, hcp_users, hcp_groups, pam_sshd, nsswitch, sshd_config, pam_winbind,
  nss_updates, sshd_updates, winbind_updates, ad_pam, no_ad_pam,
}
use xen_api.Extauth.Hooks.Build.{Existing, AdminRole}

abbrev pub content : List Text → Option Bytes
content lines = some (utf8_encode (join_lines lines))

-- The files that a refresh does not write
abbrev pub Elsewhere : Host → Host → Type 0
Elsewhere h h' =
    (p : Text)
    → text_eq p nsswitch ≡ false
    → text_eq p sshd_config ≡ false
    → text_eq p hcp_users ≡ false
    → text_eq p hcp_groups ≡ false
    → text_eq p pam_sshd ≡ false
    → text_eq p pam_winbind ≡ false
    → (h'.files) p ≡ (h.files) p

-- What the files are after a refresh that went through.
abbrev pub Refreshed : Outside → Bool → Host → Host → Type 0
Refreshed o e h h' =
    (role : Text) × (nss : List Text) × (sshd : List Text) × (winbind : List Text) × AdminRole o
      role
    × Existing h nsswitch nss
    × Existing h sshd_config sshd
    × Existing h pam_winbind winbind
    × ((h'.files) nsswitch ≡ content (configure (codes ": ") (nss_updates e) nss))
    × ((h'.files) sshd_config ≡ content (configure (codes " ") (sshd_updates e) sshd))
    × ((h'.files) hcp_users
        ≡ (if e then content (subject_lines (o.session) users_list role) else none))
    × ((h'.files) hcp_groups
        ≡ (if e then content (subject_lines (o.session) groups_list role) else none))
    × ((h'.files) pam_sshd ≡ content (if e then ad_pam else no_ad_pam))
    × ((h'.files) pam_winbind ≡ content (configure (codes " = ") winbind_updates winbind))
    × Elsewhere h h'

abbrev pub reload : List Text
reload = codes "/usr/bin/systemctl" ∷ codes "reload-or-restart" ∷ codes "sshd" ∷ []

-- A refresh that stopped when sshd was not reloaded: only two files are written.
abbrev pub Stopped : Outside → Host → Host → Type 0
Stopped o h h' =
    ((o.check_output) reload ≡ Outcome.called_process_error)
    × ((p : Text)
        → text_eq p nsswitch ≡ false
        → text_eq p sshd_config ≡ false
        → (h'.files) p ≡ (h.files) p)

-- The ways in which a refresh can end
abbrev pub Ends : Outside → Bool → Host → Text × Host → Type 0
Ends o e h (a, h') =
    ((a ≡ codes "True") × Refreshed o e h h')
    ⊎ ((a ≡ codes "Failed to refresh all configurations") × ((h' ≡ h) ⊎ Stopped o h h'))
