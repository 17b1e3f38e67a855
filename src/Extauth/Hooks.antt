-- ===== src/Extauth/Hooks.antt =====
-- python3/plugins/extauth-hook-AD.py: the lists of users and groups as files, `ConfigManager`, and the
-- callbacks. What the plugin is given, xapi's session and the command that reloads sshd, is an argument.
pub mod Build
pub mod Lists
pub mod Refresh
pub mod Refreshed
pub mod Written
use xen_api.Base.{Bool, true, false, Option, none, some, List, [], ◌∷◌, ◌++◌, if◌then◌else◌}
use xen_api.Base.Bytes.{Bytes, codes, bytes_eq as text_eq}
use xen_api.Base.Utf8.{Text, utf8_encode, utf8_decode}
use xen_api.Base.Words.Split.{join_lines}
use xen_api.Base.Exec.{Exec, Result, ok, err, pure, raise, gets, modify, ◌>>=◌, ◌>>◌}
use xen_api.Extauth.KeyValue.{Values, effective_sep, new_values, apply_to_cache, read_lines}
use xen_api.Extauth.Subjects.{Session, Kind, users_list, groups_list, subject_lines}
use xen_api.Extauth.Files.{
  Outcome, Failure, Host, Outside, hcp_users, hcp_groups, pam_sshd, nsswitch, sshd_config,
  pam_winbind, put, lines_or_raise, existing_lines, load_existing, install, install_dynamic,
  KeyValue, new_key_value, apply_key_value, nss_updates, sshd_updates, winbind_updates, or_log,
  run_cmd, apply_sshd, ad_pam, no_ad_pam, apply_static_pam, ran, os_error, unicode_decode_error,
  no_such_role,
}

-- A `DynamicPam` that was constructed: the role that it looked up.
abbrev pub first_role : Option (List Text) → Exec Failure Host Text
first_role (some (role ∷ roles)) = pure role
first_role _ = raise no_such_role

unfoldable pub new_dynamic : Outside → Exec Failure Host Text
new_dynamic o = first_role ((o.session.get_by_name_label) (codes "pool-admin"))

abbrev pub path_of : Kind → Text
path_of users_list = hcp_users
path_of groups_list = hcp_groups

-- `apply` of `DynamicPam`
unfoldable pub apply_dynamic : Outside → Kind → Bool → Text → Exec Failure Host (Unit {0})
apply_dynamic o kind ad_enabled role =
    install_dynamic (path_of kind) ad_enabled
      (if ad_enabled then subject_lines (o.session) kind role else [])

-- A `ConfigManager` that was constructed.
pub record ConfigManager : Type 0 where
  pub ad_enabled : Bool
  pub nss : KeyValue
  pub sshd : KeyValue
  pub users : Text
  pub groups : Text
  pub winbind : KeyValue

-- `_build_config`
unfoldable pub build_config : Outside → Bool → Exec Failure Host ConfigManager
build_config o ad_enabled = new_key_value nsswitch (codes ": ") (nss_updates ad_enabled) >>= λ nss.
    new_key_value sshd_config (codes " ") (sshd_updates ad_enabled) >>= λ sshd.
    new_dynamic o >>= λ users. new_dynamic o >>= λ groups.
    new_key_value pam_winbind (codes " = ") winbind_updates >>= λ winbind. pure (record {
      ad_enabled = ad_enabled;
      nss = nss;
      sshd = sshd;
      users = users;
      groups = groups;
      winbind = winbind;
    })

unfoldable pub refresh_all : Outside → ConfigManager → Exec Failure Host (Unit {0})
refresh_all o c =
    apply_key_value (c.nss)
    >> apply_sshd o (c.sshd)
    >> apply_dynamic o users_list (c.ad_enabled) (c.users)
    >> apply_dynamic o groups_list (c.ad_enabled) (c.groups)
    >> apply_static_pam (c.ad_enabled)
    >> apply_key_value (c.winbind)

abbrev pub refresh_dynamic : Outside → ConfigManager → Exec Failure Host (Unit {0})
refresh_dynamic o c =
    apply_dynamic o users_list (c.ad_enabled) (c.users)
    >> apply_dynamic o groups_list (c.ad_enabled) (c.groups)

-- What a callback answers: `str(True)`, or a message for any exception.
abbrev pub answer : Text → Result Failure (Unit {0}) × Host → Text × Host
answer msg (ok _, h) = (codes "True", h)
answer msg (err _, h) = (msg, h)

unfoldable pub refresh_all_configurations : Outside → Bool → Host → Text × Host
refresh_all_configurations o ad_enabled h =
    answer (codes "Failed to refresh all configurations")
      ((build_config o ad_enabled >>= refresh_all o) h)

unfoldable pub refresh_dynamic_pam : Outside → Host → Text × Host
refresh_dynamic_pam o h =
    answer (codes "Failed to refresh dynamic pam configuration")
      ((build_config o true >>= refresh_dynamic o) h)

-- The callbacks.
pub data Hook : Type 0 where
  after_extauth_enable after_xapi_initialize after_subject_add after_subject_remove : Hook
  after_subject_update after_roles_update before_extauth_disable : Hook

unfoldable pub dispatch : Outside → Hook → Host → Text × Host
dispatch o after_extauth_enable = refresh_all_configurations o true
dispatch o after_xapi_initialize = refresh_all_configurations o true
dispatch o after_subject_add = refresh_dynamic_pam o
dispatch o after_subject_remove = refresh_dynamic_pam o
dispatch o after_subject_update = refresh_dynamic_pam o
dispatch o after_roles_update = refresh_dynamic_pam o
dispatch o before_extauth_disable = refresh_all_configurations o false
