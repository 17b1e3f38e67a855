-- ===== src/Extauth/Subjects/Named.antt =====
-- Which subjects the lists of users and groups of extauth-hook-AD.py do not leave out.
use xen_api.Base.{◌≡◌, sym, Option, none, some, List, [], ◌∷◌, Bool-cases, Option-cases, inl, inr}
use mathlib.Core.Path.{subst, subst₂}
use xen_api.Base.Bytes.{codes}
use xen_api.Base.Utf8.{Text}
use xen_api.Extauth.KeyValue.Lines.{OneOf, Each}
use xen_api.Extauth.Subjects.{
  Subject, Session, Kind, users_list, groups_list, is_pool_admin, config_of, is_responsible_for,
  add_upn, add_names, add_subject, permit, add_subjects, add_all, subject_lines,
}
use xen_api.Extauth.Subjects.Permits.{OneOf-left, OneOf-last, Permitted}

-- Every record is read.
abbrev pub Readable : Session → List Text → Type 0
Readable session refs = Each (λ r. (s : Subject) × ((session.get_record) r ≡ some s)) refs

OneOf-permit :
    (kind : Kind) (role : Text) (s : Subject) (lines : List Text) (l : Text)
    → OneOf l lines
    → OneOf l (permit kind role s lines)
unfolding permit add_subject add_upn
OneOf-permit kind role s lines l h = elim (Bool-cases (is_pool_admin role s)) [
  | inr other ↦ rw other h
  | inl admin ↦ elim (Bool-cases (is_responsible_for kind s)) [
    | inr other ↦ rw (admin, other) h
    | inl mine ↦
        rw (admin, mine) (kept (s.subject_identifier) (config_of (codes "subject-name") s) kind)
  ]
]
  where
    kept : (sid name : Option Text) (kind : Kind) → OneOf l (add_names kind s sid name lines)
    kept none name kind = h
    kept (some sid) none kind = h
    kept (some sid) (some name) users_list = OneOf-left l _ _ (OneOf-left l lines (name ∷ []) h)
    kept (some sid) (some name) groups_list = OneOf-left l lines (name ∷ []) h

OneOf-add_subjects :
    (session : Session) (kind : Kind) (role : Text) (refs lines : List Text) (l : Text)
    → OneOf l lines
    → OneOf l (add_subjects session kind role refs lines)
unfolding add_subjects
OneOf-add_subjects session kind role [] lines l h = OneOf-left l lines ([] ∷ []) h
OneOf-add_subjects session kind role (r ∷ refs) lines l h =
    elim (Option-cases ((session.get_record) r)) [
      | inl failed ↦ rw failed h
      | inr (s, found) ↦ rw found (
          OneOf-add_subjects session kind role refs (permit kind role s lines) l
            (OneOf-permit kind role s lines l h))
    ]

permit-named :
    (kind : Kind) (role sid name : Text) (s : Subject) (lines : List Text)
    → Permitted kind role s
    → s.subject_identifier ≡ some sid
    → config_of (codes "subject-name") s ≡ some name
    → OneOf name (permit kind role s lines)
unfolding permit add_subject add_upn
permit-named kind role sid name s lines (admin, mine) has_sid has_name =
    rw (admin, mine)
      (subst₂ (λ i n. OneOf name (add_names kind s i n lines)) (sym has_sid) (sym has_name)
        (added kind))
  where
    added : (kind : Kind) → OneOf name (add_names kind s (some sid) (some name) lines)
    added users_list = OneOf-left name _ _ (OneOf-last name lines)
    added groups_list = OneOf-last name lines

add_subjects-named :
    (session : Session) (kind : Kind) (role sid name r : Text) (s : Subject)
    (refs lines : List Text)
    → Readable session refs
    → OneOf r refs
    → (session.get_record) r ≡ some s
    → Permitted kind role s
    → s.subject_identifier ≡ some sid
    → config_of (codes "subject-name") s ≡ some name
    → OneOf name (add_subjects session kind role refs lines)
unfolding add_subjects
add_subjects-named session kind role sid name r s [] lines readable among found permitted has_sid
      has_name =
    absurd among
add_subjects-named session kind role sid name r s (r' ∷ refs) lines ((s', read), readable) among
      found permitted has_sid has_name =
    elim among [
      | inl same ↦
          rw (← same, found)
            (OneOf-add_subjects session kind role refs (permit kind role s lines) name
              (permit-named kind role sid name s lines permitted has_sid has_name))
      | inr among ↦ rw read (
          add_subjects-named session kind role sid name r s refs (permit kind role s' lines)
            readable among found permitted has_sid has_name)
    ]

-- If xapi gives all subjects and all their records, then each subject with the admin role that a list is
-- about, and that has an identifier and a name, has its name in the list.
pub subject_lines-named :
    (session : Session) (kind : Kind) (role sid name r : Text) (s : Subject) (refs : List Text)
    → session.get_all ≡ some refs
    → Readable session refs
    → OneOf r refs
    → (session.get_record) r ≡ some s
    → Permitted kind role s
    → s.subject_identifier ≡ some sid
    → config_of (codes "subject-name") s ≡ some name
    → OneOf name (subject_lines session kind role)
unfolding subject_lines
subject_lines-named session kind role sid name r s refs all readable among found permitted has_sid
      has_name =
    subst (λ o. OneOf name (add_all o session kind role)) (sym all)
      (add_subjects-named session kind role sid name r s refs [] readable among found permitted
        has_sid has_name)
