-- ===== src/Extauth/Subjects.antt =====
-- python3/plugins/extauth-hook-AD.py: the users and groups that may log in, `DynamicPam`, `UsersList` and
-- `GroupsList`. The records come from xapi, in a session.
pub mod Named
pub mod Permits
use mathlib.Core.Option
use xen_api.Base.{
  Bool, true, false, not, Option, none, some, List, [], ◌∷◌, ◌++◌, ◌||◌, if◌then◌else◌,
}
use xen_api.Base.Bytes.{codes, bytes_eq as text_eq}
use xen_api.Base.Utf8.{Text}
use xen_api.Base.Words.Split.{split_on}
use xen_api.Extauth.KeyValue.{Values}

-- `d[k]`, `none` for a KeyError
unfoldable pub value_of : Text → Values → Option Text
value_of k [] = none
value_of k ((k', v) ∷ vs) = let rest = value_of k vs in if text_eq k k' then some v else rest

-- A record of a subject, `none` for a key that it does not have.
pub record Subject : Type 0 where
  pub roles : Option (List Text)
  pub subject_identifier : Option Text
  pub other_config : Option Values

-- The calls of a session, `none` for an exception.
pub record Session : Type 0 where
  pub get_by_name_label : Text → Option (List Text)
  pub get_all : Option (List Text)
  pub get_record : Text → Option Subject

-- The two subclasses.
pub data Kind : Type 0 where
  users_list groups_list : Kind

unfoldable pub has_role : Text → List Text → Bool
has_role role [] = false
has_role role (r ∷ rs) = text_eq role r || has_role role rs

-- `except KeyError: return False`
abbrev pub or_false : Option Bool → Bool
or_false none = false
or_false (some b) = b

unfoldable pub is_pool_admin : Text → Subject → Bool
is_pool_admin role s = or_false (Option.map (has_role role) (s.roles))

-- `subject_rec["other_config"][k]`
unfoldable pub config_of : Text → Subject → Option Text
config_of k s = Option.bind (s.other_config) (value_of k)

-- `_match_subject`
unfoldable pub match_subject : Kind → Subject → Option Bool
match_subject users_list s =
    Option.map (λ v. not (text_eq v (codes "true"))) (config_of (codes "subject-is-group") s)
match_subject groups_list s =
    Option.map (λ v. text_eq v (codes "true")) (config_of (codes "subject-is-group") s)

unfoldable pub is_responsible_for : Kind → Subject → Bool
is_responsible_for kind s = or_false (match_subject kind s)

-- `"{}{}{}".format(user, sep, domain)`, if the UPN has the two parts
abbrev pub upn_line : List Text → List Text
upn_line (user ∷ domain ∷ []) = (user ++ (codes "@" ++ domain)) ∷ []
upn_line _ = []

abbrev pub upn_lines : Option Text → List Text
upn_lines none = []
upn_lines (some upn) = upn_line (split_on (codes "@") upn)

-- `_add_upn`
unfoldable pub add_upn : Subject → List Text → List Text
add_upn s lines = lines ++ upn_lines (config_of (codes "subject-upn") s)

-- `_add_subject`, for the identifier and the name; what it raises is logged.
abbrev pub add_names : Kind → Subject → Option Text → Option Text → List Text → List Text
add_names kind s none name lines = lines
add_names kind s (some sid) none lines = lines
add_names users_list s (some sid) (some name) lines = add_upn s (lines ++ name ∷ [])
add_names groups_list s (some sid) (some name) lines = lines ++ name ∷ []

unfoldable pub add_subject : Kind → Subject → List Text → List Text
add_subject kind s lines =
    add_names kind s (s.subject_identifier) (config_of (codes "subject-name") s) lines

-- The body of the loop of `_apply_to_cache`, for a record that was read.
unfoldable pub permit : Kind → Text → Subject → List Text → List Text
permit kind role s lines =
    if is_pool_admin role s
    then (if is_responsible_for kind s then add_subject kind s lines else lines)
    else lines

abbrev pub or_stop : Option Subject → (Subject → List Text) → List Text → List Text
or_stop none go lines = lines
or_stop (some s) go lines = go s

-- The loop, from some lines on, and the new line at the end; an exception leaves the lines as they are.
unfoldable pub add_subjects : Session → Kind → Text → List Text → List Text → List Text
add_subjects session kind role [] lines = lines ++ [] ∷ []
add_subjects session kind role (r ∷ rs) lines =
    or_stop ((session.get_record) r)
      (λ s. add_subjects session kind role rs (permit kind role s lines)) lines

abbrev pub add_all : Option (List Text) → Session → Kind → Text → List Text
add_all none session kind role = []
add_all (some refs) session kind role = add_subjects session kind role refs []

-- `_apply_to_cache` of `DynamicPam`, where AD is enabled
unfoldable pub subject_lines : Session → Kind → Text → List Text
subject_lines session kind role = add_all (session.get_all) session kind role
