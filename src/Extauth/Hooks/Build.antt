-- ===== src/Extauth/Hooks/Build.antt =====
-- extauth-hook-AD.py: how the constructor of `ConfigManager` ends.
use xen_api.Base.{◌≡◌, refl, Bool, Option, none, some, List, [], ◌∷◌, inl, inr, ◌⊎◌}
use xen_api.Base.Bytes.{Bytes, codes}
use xen_api.Base.Utf8.{Text, utf8_decode}
use xen_api.Base.Exec.{ok, err}
use xen_api.Extauth.KeyValue.{new_values, read_lines}
use xen_api.Extauth.Files.{
  Failure, unicode_decode_error, no_such_role, Host, Outside, nsswitch, sshd_config, pam_winbind,
  load_existing, existing_lines, new_key_value, nss_updates, sshd_updates, winbind_updates,
  lines_or_raise,
}
use xen_api.Extauth.Hooks.{ConfigManager, new_dynamic, first_role, build_config}

-- The lines of a file that is there, or no lines
abbrev pub Existing : Host → Text → List Text → Type 0
Existing h path lines =
    (((h.files) path ≡ none) × (lines ≡ []))
    ⊎ ((bytes : Bytes) × (content : Text) × ((h.files) path ≡ some bytes)
        × (utf8_decode bytes ≡ some content)
        × (lines ≡ read_lines content))

pub load_existing-cases :
    (path : Text) (h : Host)
    → (load_existing path h ≡ (err unicode_decode_error, h))
      ⊎ ((lines : List Text) × (load_existing path h ≡ (ok lines, h)) × Existing h path lines)
unfolding load_existing
load_existing-cases path h = with_file ((h.files) path) refl
  where
    decoded :
        (bytes : Bytes)
        → (h.files) path ≡ some bytes
        → (o : Option Text) → utf8_decode bytes ≡ o
        → (lines_or_raise o h ≡ (err unicode_decode_error, h))
          ⊎ ((lines : List Text) × (lines_or_raise o h ≡ (ok lines, h)) × Existing h path lines)
    decoded bytes there none e = inl refl
    decoded bytes there (some content) e =
        inr (read_lines content, refl, inr (bytes, content, there, e, refl))

    with_file :
        (o : Option Bytes)
        → (h.files) path ≡ o
        → (existing_lines o h ≡ (err unicode_decode_error, h))
          ⊎ ((lines : List Text) × (existing_lines o h ≡ (ok lines, h)) × Existing h path lines)
    with_file none e = inr ([], refl, inl (e, refl))
    with_file (some bytes) e = decoded bytes e (utf8_decode bytes) refl

-- The role that the session gives first
abbrev pub AdminRole : Outside → Text → Type 0
AdminRole o role =
    (others : List Text) × ((o.session.get_by_name_label) (codes "pool-admin")
      ≡ some (role ∷ others))

pub new_dynamic-cases :
    (o : Outside) (h : Host)
    → (new_dynamic o h ≡ (err no_such_role, h))
      ⊎ ((role : Text) × (new_dynamic o h ≡ (ok role, h)) × AdminRole o role)
unfolding new_dynamic
new_dynamic-cases o h = with_roles ((o.session.get_by_name_label) (codes "pool-admin")) refl
  where
    with_roles :
        (roles : Option (List Text))
        → (o.session.get_by_name_label) (codes "pool-admin") ≡ roles
        → (first_role roles h ≡ (err no_such_role, h))
          ⊎ ((role : Text) × (first_role roles h ≡ (ok role, h)) × AdminRole o role)
    with_roles none e = inl refl
    with_roles (some []) e = inl refl
    with_roles (some (role ∷ others)) e = inr (role, refl, (others, e))

-- The manager for some roles and lines that were read
unfoldable pub manager : Bool → Text → List Text → List Text → List Text → ConfigManager
manager e role nss sshd winbind = record {
  ad_enabled = e;
  nss = record {
    path = nsswitch;
    sep = codes ": ";
    values = new_values (codes ": ") (nss_updates e) nss;
  };
  sshd = record {
    path = sshd_config;
    sep = codes " ";
    values = new_values (codes " ") (sshd_updates e) sshd;
  };
  users = role;
  groups = role;
  winbind = record {
    path = pam_winbind;
    sep = codes " = ";
    values = new_values (codes " = ") winbind_updates winbind;
  };
}

unfoldable pub Built : Outside → Bool → Host → Type 0
Built o e h =
    (role : Text) × (nss : List Text) × (sshd : List Text) × (winbind : List Text) × (build_config o
        e h
      ≡ (ok (manager e role nss sshd winbind), h))
    × AdminRole o role
    × Existing h nsswitch nss
    × Existing h sshd_config sshd
    × Existing h pam_winbind winbind

pub build_config-cases :
    (o : Outside) (e : Bool) (h : Host)
    → ((f : Failure) × (build_config o e h ≡ (err f, h))) ⊎ Built o e h
unfolding build_config new_key_value manager Built
build_config-cases o e h = elim (load_existing-cases nsswitch h) [
  | inl bad ↦ inl (unicode_decode_error, rw bad refl)
  | inr (nss, nss_read, nss_there) ↦ elim (load_existing-cases sshd_config h) [
    | inl bad ↦ inl (unicode_decode_error, rw (nss_read, bad) refl)
    | inr (sshd, sshd_read, sshd_there) ↦ elim (new_dynamic-cases o h) [
      | inl bad ↦ inl (no_such_role, rw (nss_read, sshd_read, bad) refl)
      | inr (role, found, is_role) ↦ elim (load_existing-cases pam_winbind h) [
        | inl bad ↦ inl (unicode_decode_error, rw (nss_read, sshd_read, found, found, bad) refl)
        | inr (winbind, winbind_read, winbind_there) ↦ inr (
          role,
          nss,
          sshd,
          winbind,
          rw (nss_read, sshd_read, found, found, winbind_read) refl,
          is_role,
          nss_there,
          sshd_there,
          winbind_there,
        )
      ]
    ]
  ]
]
