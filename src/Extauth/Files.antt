-- ===== src/Extauth/Files.antt =====
-- python3/plugins/extauth-hook-AD.py: the files that are configured, as `ADConfig` reads and writes them, and
-- the classes of files with one content or with keys and values. Files hold bytes; reading and writing
-- them succeeds, but for text that is not UTF-8. The command that reloads sshd is an argument.
use xen_api.Base.{Bool, true, false, Option, none, some, List, [], ◌∷◌, ◌++◌, if◌then◌else◌}
use xen_api.Base.Bytes.{Bytes, codes, bytes_eq as text_eq}
use xen_api.Base.Utf8.{Text, utf8_encode, utf8_decode}
use xen_api.Base.Words.Split.{join_lines}
use xen_api.Base.Exec.{Exec, pure, raise, gets, modify, ◌>>=◌, ◌>>◌}
use xen_api.Extauth.KeyValue.{Values, effective_sep, new_values, apply_to_cache, read_lines}
use xen_api.Extauth.Subjects.{Session}

-- What a command did: it ended well, it could not be run, or it failed.
pub data Outcome : Type 0 where
  ran os_error called_process_error : Outcome

pub data Failure : Type 0 where
  unicode_decode_error called_process_error no_such_role : Failure

-- The files, and the commands that were run, the last one first.
pub record Host : Type 0 where
  pub files : Text → Option Bytes
  pub commands : List (List Text)

-- What the plugin is given: the session, and what a command does.
pub record Outside : Type 0 where
  pub session : Session
  pub check_output : List Text → Outcome

abbrev pub hcp_users : Text
hcp_users = codes "/etc/security/hcp_ad_users.conf"

abbrev pub hcp_groups : Text
hcp_groups = codes "/etc/security/hcp_ad_groups.conf"

abbrev pub pam_sshd : Text
pam_sshd = codes "/etc/pam.d/sshd"

abbrev pub nsswitch : Text
nsswitch = codes "/etc/nsswitch.conf"

abbrev pub sshd_config : Text
sshd_config = codes "/etc/ssh/sshd_config"

abbrev pub pam_winbind : Text
pam_winbind = codes "/etc/security/pam_winbind.conf"

-- A file is replaced, or removed.
unfoldable pub put : Text → Option Bytes → Host → Host
put path content h = record h { files = λ p. if text_eq p path then content else (h.files) p }

abbrev pub lines_or_raise : Option Text → Exec Failure Host (List Text)
lines_or_raise none = raise unicode_decode_error
lines_or_raise (some content) = pure (read_lines content)

abbrev pub existing_lines : Option Bytes → Exec Failure Host (List Text)
existing_lines none = pure []
existing_lines (some bytes) = lines_or_raise (utf8_decode bytes)

-- The constructor of `ADConfig`, for a file whose lines it loads
unfoldable pub load_existing : Text → Exec Failure Host (List Text)
load_existing path = gets (λ h. (h.files) path) >>= existing_lines

-- `_install`
unfoldable pub install : Text → List Text → Exec Failure Host (Unit {0})
install path lines = modify (put path (some (utf8_encode (join_lines lines))))

-- `_install` of `DynamicPam`
unfoldable pub install_dynamic : Text → Bool → List Text → Exec Failure Host (Unit {0})
install_dynamic path true lines = install path lines
install_dynamic path false lines = modify (put path none)

-- A `KeyValueConfig` that was constructed.
pub record KeyValue : Type 0 where
  pub path : Text
  pub sep : Text
  pub values : Values

unfoldable pub new_key_value : Text → Text → List (Text × Text) → Exec Failure Host KeyValue
new_key_value path sep updates = load_existing path >>= λ lines.
    pure (record { path = path; sep = sep; values = new_values sep updates lines })

-- `apply` of `KeyValueConfig`
unfoldable pub apply_key_value : KeyValue → Exec Failure Host (Unit {0})
apply_key_value c = install (c.path) (apply_to_cache (effective_sep (c.sep)) (c.values))

-- The keys and values that `NssConfig`, `SshdConfig` and `PamWinbindConfig` update.
unfoldable pub nss_updates : Bool → List (Text × Text)
nss_updates ad_enabled =
    let modules = if ad_enabled then codes "files override_id winbind" else codes "files sss" in
    (codes "passwd", modules) ∷ (codes "group", modules) ∷ (codes "shadow", modules) ∷ []

unfoldable pub sshd_updates : Bool → List (Text × Text)
sshd_updates ad_enabled =
    let value = if ad_enabled then codes "yes" else codes "no" in
    (codes "ChallengeResponseAuthentication", value)
    ∷ (codes "GSSAPIAuthentication", value)
    ∷ (codes "GSSAPICleanupCredentials", value)
    ∷ []

abbrev pub winbind_updates : List (Text × Text)
winbind_updates = (codes "krb5_auth", codes "yes") ∷ []

-- `run_cmd`: a command that cannot be run is only logged.
abbrev pub or_log : Outcome → Exec Failure Host (Unit {0})
or_log ran = pure tt
or_log os_error = pure tt
or_log Outcome.called_process_error = raise Failure.called_process_error

unfoldable pub run_cmd : Outside → List Text → Exec Failure Host (Unit {0})
run_cmd o command =
    modify (λ h. record h { commands = command ∷ h.commands }) >> or_log ((o.check_output) command)

-- `apply` of `SshdConfig`
unfoldable pub apply_sshd : Outside → KeyValue → Exec Failure Host (Unit {0})
apply_sshd o c =
    apply_key_value c
    >> run_cmd o (codes "/usr/bin/systemctl" ∷ codes "reload-or-restart" ∷ codes "sshd" ∷ [])

-- `StaticSSHPam`: its lines, with AD and without.
unfoldable pub ad_pam : List Text
ad_pam =
    codes "#%PAM-1.0"
    ∷ codes "auth        required      pam_env.so"
    ∷ codes "auth        sufficient    pam_unix.so try_first_pass nullok"
    ∷ codes "auth        sufficient    pam_winbind.so try_first_pass try_authtok"
    ∷ codes "auth        required      pam_deny.so"
    ∷ []
    ∷ codes "session     optional      pam_keyinit.so force revoke"
    ∷ codes "session     required      pam_limits.so"
    ∷ codes
        "session     [success=1 default=ignore] pam_succeed_if.so service in crond quiet use_uid"
    ∷ codes "session     required      pam_unix.so"
    ∷ codes "session     required      pam_loginuid.so"
    ∷ codes "session     sufficient    pam_winbind.so"
    ∷ []
    ∷ codes "account     required      pam_nologin.so"
    ∷ codes "account     required      pam_winbind.so unknown_ok"
    ∷ (codes "account     sufficient    pam_listfile.so item=user file="
        ++ (hcp_users ++ codes " sense=allow onerr=fail"))
    ∷ (codes "account     sufficient    pam_listfile.so item=group file="
        ++ (hcp_groups ++ codes " sense=allow onerr=fail"))
    ∷ codes "account     required      pam_unix.so"
    ∷ []

unfoldable pub no_ad_pam : List Text
no_ad_pam =
    codes "#%PAM-1.0"
    ∷ codes "auth       include      system-auth"
    ∷ codes "account    required     pam_nologin.so"
    ∷ codes "account    include      system-auth"
    ∷ codes "password   include      system-auth"
    ∷ codes "session    optional     pam_keyinit.so force revoke"
    ∷ codes "session    include      system-auth"
    ∷ codes "session    required     pam_loginuid.so"
    ∷ []

unfoldable pub apply_static_pam : Bool → Exec Failure Host (Unit {0})
apply_static_pam ad_enabled = install pam_sshd (if ad_enabled then ad_pam else no_ad_pam)
