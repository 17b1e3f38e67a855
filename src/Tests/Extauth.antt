-- ===== src/Tests/Extauth.antt =====
-- A small host for extauth-hook-AD.py: one configuration file, one admin, one group.
use xen_api.Base.{
  refl, ◌≡◌, true, false, Option, some, none, List, [], ◌∷◌, if◌then◌else◌, inl, inr, ◌⊎◌, ◌++◌,
}
use xen_api.Base.Dict.{assign, has_key}
use xen_api.Base.Bytes.{codes, bytes_eq}
use xen_api.Base.Utf8.{Text}
use xen_api.Base.Words.{strip, decimal}
use xen_api.Base.Words.Split.{split_on, starts_with}
use xen_api.Extauth.KeyValue.{
  configure, new_values, effective_sep, parse_pair, is_comment_line, is_special_line, load_line,
  load_values, apply_value, apply_to_cache, update_all, sp_key, split_line, all_space,
}
use xen_api.Extauth.KeyValue.Lines.{setting, OneOf}
use xen_api.Extauth.KeyValue.Configure.{Keeps, configure-Keeps, configure-Updates}
use xen_api.Extauth.Subjects.{
  Subject, Session, users_list, groups_list, subject_lines, is_pool_admin, is_responsible_for,
  config_of, value_of, has_role, match_subject,
}
use xen_api.Extauth.Subjects.Permits.{Source, subject_lines-Source}
use xen_api.Extauth.Subjects.Named.{subject_lines-named}
use xen_api.Extauth.Files.{Host, Outside, ran, nsswitch, nss_updates}
use xen_api.Extauth.Hooks.{refresh_all_configurations, dispatch, after_subject_add}
use xen_api.Extauth.Hooks.Refreshed.{Ends}
use xen_api.Extauth.Hooks.Refresh.{refresh_all_configurations-Ends}
use xen_api.Extauth.Hooks.Lists.{ListsEnd, dispatch-ListsEnd}

abbrev nss_lines : List Text
nss_lines =
    codes "# names"
    ∷ codes "passwd: files"
    ∷ []
    ∷ codes "passwd: dns"
    ∷ codes "hosts:   files dns"
    ∷ []

nss_written :
    configure (codes ": ") (nss_updates false) nss_lines
    ≡ codes "# names"
      ∷ codes "passwd: files sss"
      ∷ []
      ∷ codes "passwd: dns"
      ∷ codes "hosts: files dns"
      ∷ codes "group: files sss"
      ∷ codes "shadow: files sss"
      ∷ []
unfolding configure new_values effective_sep parse_pair is_comment_line is_special_line load_line
    load_values apply_value apply_to_cache update_all assign has_key sp_key split_line all_space
    split_on starts_with nss_updates strip decimal bytes_eq xen_api.Base.Words.behind
nss_written = refl

abbrev alice : Subject
alice = record {
  roles = some (codes "r1" ∷ []);
  subject_identifier = some (codes "S-1");
  other_config = some (
      (codes "subject-is-group", codes "false")
      ∷ (codes "subject-name", codes "D\\alice")
      ∷ (codes "subject-upn", codes "alice@d")
      ∷ []);
}

abbrev xapi : Session
xapi = record {
  get_by_name_label = λ l. some (codes "r1" ∷ []);
  get_all = some (codes "s1" ∷ []);
  get_record = λ r. some alice;
}

users_written :
    subject_lines xapi users_list (codes "r1") ≡ codes "D\\alice" ∷ codes "alice@d" ∷ [] ∷ []
unfolding subject_lines xen_api.Extauth.Subjects.add_subjects xen_api.Extauth.Subjects.permit
    is_pool_admin has_role bytes_eq is_responsible_for match_subject config_of
    mathlib.Core.Option.bind value_of xen_api.Extauth.Subjects.add_subject
    xen_api.Extauth.Subjects.add_upn split_on starts_with xen_api.Base.Words.behind
users_written = refl

abbrev outside : Outside
outside = record { session = xapi; check_output = λ c. ran }

abbrev dom0 : Host
dom0 = record {
  files = λ p. if bytes_eq p nsswitch then some (codes "passwd: files") else none;
  commands = [];
}

configure-Keeps_example :
    Keeps
      (effective_sep (codes ": "))
      (nss_updates false)
      nss_lines
      (configure (codes ": ") (nss_updates false) nss_lines)
unfolding effective_sep all_space setting parse_pair is_comment_line starts_with
    xen_api.Base.Words.behind xen_api.Base.Words.is_space split_on is_special_line strip nss_updates
configure-Keeps_example =
    configure-Keeps (codes ": ") (nss_updates false) nss_lines
      (refl, (refl, (refl, (refl, (refl, tt))))) (refl, (refl, (refl, tt)))

configure-Updates_example :
    OneOf
      (codes "shadow" ++ (codes ": " ++ codes "files sss"))
      (configure (codes ": ") (nss_updates false) nss_lines)
unfolding effective_sep all_space nss_updates is_special_line starts_with xen_api.Base.Words.behind
    bytes_eq xen_api.Base.Words.is_space
configure-Updates_example =
    configure-Updates (codes ": ") (nss_updates false) nss_lines (codes "shadow")
      (codes "files sss") refl refl

subject_lines-Source_example :
    (codes "alice@d" ≡ [])
    ⊎ ((refs : List Text) × (xapi.get_all ≡ some refs)
        × Source xapi users_list (codes "r1") refs (codes "alice@d"))
subject_lines-Source_example =
    subject_lines-Source xapi users_list (codes "r1") (codes "alice@d")
      (rw users_written (inr (inl refl)))

subject_lines-named_example : OneOf (codes "D\\alice") (subject_lines xapi users_list (codes "r1"))
unfolding is_pool_admin is_responsible_for config_of has_role bytes_eq match_subject
    mathlib.Core.Option.bind value_of
subject_lines-named_example =
    subject_lines-named xapi users_list (codes "r1") (codes "S-1") (codes "D\\alice") (codes "s1")
      alice (codes "s1" ∷ []) refl ((alice, refl), tt) (inl refl) refl (refl, refl) refl refl

refresh_all_configurations_example :
    Ends outside false dom0 (refresh_all_configurations outside false dom0)
refresh_all_configurations_example = refresh_all_configurations-Ends outside false dom0

dispatch-ListsEnd_example : ListsEnd outside dom0 (dispatch outside after_subject_add dom0)
dispatch-ListsEnd_example = dispatch-ListsEnd outside after_subject_add dom0 refl
