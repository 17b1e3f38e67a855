-- ===== src/Extauth/Subjects/Permits.antt =====
-- Which lines the lists of users and groups of extauth-hook-AD.py have.
use xen_api.Base.{
  ℕ, ◌≡◌, refl, sym, ap, ◌∙◌, true, Option, none, some, List, [], ◌∷◌, ◌++◌, Bool-cases,
  Option-cases, inl, inr, ◌⊎◌, arith, append-nil,
}
use xen_api.Base.Bytes.{codes}
use xen_api.Base.Utf8.{Text}
use xen_api.Base.Words.{behind}
use xen_api.Base.Words.Split.{split_on, split_from, starts_with}
use xen_api.Extauth.KeyValue.Lines.{OneOf}
use xen_api.Extauth.Subjects.{
  Subject, Session, Kind, users_list, groups_list, is_pool_admin, config_of, is_responsible_for,
  upn_line, upn_lines, add_upn, add_names, add_subject, permit, add_subjects, add_all,
  subject_lines,
}

OneOf-append : (l : Text) (ls ms : List Text) → OneOf l (ls ++ ms) → OneOf l ls ⊎ OneOf l ms
OneOf-append l [] ms h = inr h
OneOf-append l (x ∷ ls) ms (inl e) = inl (inl e)
OneOf-append l (x ∷ ls) ms (inr h) = elim (OneOf-append l ls ms h) [
  | inl there ↦ inl (inr there)
  | inr behind ↦ inr behind
]

pub OneOf-left : (l : Text) (ls ms : List Text) → OneOf l ls → OneOf l (ls ++ ms)
OneOf-left l [] ms h = absurd h
OneOf-left l (x ∷ ls) ms (inl e) = inl e
OneOf-left l (x ∷ ls) ms (inr h) = inr (OneOf-left l ls ms h)

pub OneOf-last : (l : Text) (ls : List Text) → OneOf l (ls ++ l ∷ [])
OneOf-last l [] = inl refl
OneOf-last l (x ∷ ls) = inr (OneOf-last l ls)

-- The parts of a text with the separator before each but the first.
parts : ℕ → List Text → Text
parts c [] = []
parts c (t ∷ ts) = c ∷ (t ++ parts c ts)

glue-split_from :
    (c : ℕ) (s : Text) → (split_from (c ∷ []) 0 s).0 ++ parts c ((split_from (c ∷ []) 0 s).1) ≡ s
unfolding split_from starts_with behind parts
glue-split_from c [] = refl
glue-split_from c (d ∷ s) = let rest = glue-split_from c s in ground (arith, rest)

-- The line of a UPN is the UPN.
upn_line-split_on : (upn l : Text) → OneOf l (upn_line (split_on (codes "@") upn)) → l ≡ upn
unfolding split_on parts
upn_line-split_on upn l h =
    go ((split_from (codes "@") 0 upn).0) ((split_from (codes "@") 0 upn).1)
      (glue-split_from b'@' upn) h
  where
    go :
        (first : Text) (others : List Text)
        → first ++ parts b'@' others ≡ upn
        → OneOf l (upn_line (first ∷ others))
        → l ≡ upn
    go first [] e h = absurd h
    go first (second ∷ []) e (inl same) = same ∙ rw (append-nil second) at e
    go first (second ∷ []) e (inr h) = absurd h
    go first (second ∷ third ∷ others) e h = absurd h

-- A name or a UPN of a subject
abbrev pub NameOf : Kind → Subject → Text → Type 0
NameOf users_list s l =
    (config_of (codes "subject-name") s ≡ some l) ⊎ (config_of (codes "subject-upn") s ≡ some l)
NameOf groups_list s l = config_of (codes "subject-name") s ≡ some l

-- A subject that a list is about: a pool admin that is a group or is none, as the list wants it.
abbrev pub Permitted : Kind → Text → Subject → Type 0
Permitted kind role s = (is_pool_admin role s ≡ true) × (is_responsible_for kind s ≡ true)

upn_lines-NameOf :
    (s : Subject) (l : Text) (o : Option Text)
    → config_of (codes "subject-upn") s ≡ o
    → OneOf l (upn_lines o)
    → NameOf users_list s l
upn_lines-NameOf s l none e h = absurd h
upn_lines-NameOf s l (some upn) e h = inr (rw (upn_line-split_on upn l h) e)

add_subject-NameOf :
    (kind : Kind) (s : Subject) (lines : List Text) (l : Text)
    → OneOf l (add_subject kind s lines)
    → OneOf l lines ⊎ NameOf kind s l
unfolding add_subject add_upn
add_subject-NameOf kind s lines l h =
    with_sid (s.subject_identifier) (config_of (codes "subject-name") s) refl kind h
  where
    with_sid :
        (sid name : Option Text)
        → config_of (codes "subject-name") s ≡ name
        → (kind : Kind) → OneOf l (add_names kind s sid name lines)
        → OneOf l lines ⊎ NameOf kind s l
    with_sid none name e kind h = inl h
    with_sid (some sid) none e kind h = inl h
    with_sid (some sid) (some name) e groups_list h = elim (OneOf-append l lines (name ∷ []) h) [
      | inl there ↦ inl there
      | inr (inl same) ↦ inr (e ∙ ap some (sym same))
      | inr (inr none_left) ↦ absurd none_left
    ]
    with_sid (some sid) (some name) e users_list h =
        elim (OneOf-append l (lines ++ name ∷ []) (upn_lines (config_of (codes "subject-upn") s))
          h) [
            | inr upn ↦ inr (upn_lines-NameOf s l (config_of (codes "subject-upn") s) refl upn)
            | inl h ↦ elim (OneOf-append l lines (name ∷ []) h) [
              | inl there ↦ inl there
              | inr (inl same) ↦ inr (inl (e ∙ ap some (sym same)))
              | inr (inr none_left) ↦ absurd none_left
            ]
          ]

permit-Permitted :
    (kind : Kind) (role : Text) (s : Subject) (lines : List Text) (l : Text)
    → OneOf l (permit kind role s lines)
    → OneOf l lines ⊎ (Permitted kind role s × NameOf kind s l)
unfolding permit
permit-Permitted kind role s lines l h = elim (Bool-cases (is_pool_admin role s)) [
  | inr other ↦ inl (rw other at h)
  | inl admin ↦ elim (Bool-cases (is_responsible_for kind s)) [
    | inr other ↦ inl (rw (admin, other) at h)
    | inl mine ↦ elim (add_subject-NameOf kind s lines l (rw (admin, mine) at h)) [
      | inl there ↦ inl there
      | inr named ↦ inr ((admin, mine), named)
    ]
  ]
]

-- A subject of xapi that a list is about, and that has a line as its name or UPN
abbrev pub Source : Session → Kind → Text → List Text → Text → Type 0
Source session kind role refs l =
    (r : Text) × (s : Subject) × OneOf r refs
    × ((session.get_record) r ≡ some s)
    × Permitted kind role s
    × NameOf kind s l

later :
    (session : Session) (kind : Kind) (role r : Text) (refs : List Text) (l : Text)
    → Source session kind role refs l
    → Source session kind role (r ∷ refs) l
later session kind role r refs l (r', s, among, found, permitted, named) =
    (r', s, inr among, found, permitted, named)

add_subjects-Source :
    (session : Session) (kind : Kind) (role : Text) (refs lines : List Text) (l : Text)
    → OneOf l (add_subjects session kind role refs lines)
    → OneOf l lines ⊎ ((l ≡ []) ⊎ Source session kind role refs l)
unfolding add_subjects
add_subjects-Source session kind role [] lines l h = elim (OneOf-append l lines ([] ∷ []) h) [
  | inl there ↦ inl there
  | inr (inl ending) ↦ inr (inl ending)
  | inr (inr none_left) ↦ absurd none_left
]
add_subjects-Source session kind role (r ∷ refs) lines l h =
    elim (Option-cases ((session.get_record) r)) [
      | inl failed ↦ inl (rw failed at h)
      | inr (s, found) ↦
          elim (add_subjects-Source session kind role refs (permit kind role s lines) l
            (rw found at h)) [
              | inr (inl ending) ↦ inr (inl ending)
              | inr (inr source) ↦ inr (inr (later session kind role r refs l source))
              | inl before ↦ elim (permit-Permitted kind role s lines l before) [
                | inl there ↦ inl there
                | inr (permitted, named) ↦ inr (inr (r, s, inl refl, found, permitted, named))
              ]
            ]
    ]

-- Where AD is enabled, each line of the list of users or groups is the empty one at the end, or the name,
-- or for a user the UPN, of a subject of xapi that has the admin role and that the list is about.
pub subject_lines-Source :
    (session : Session) (kind : Kind) (role l : Text)
    → OneOf l (subject_lines session kind role)
    → (l ≡ [])
      ⊎ ((refs : List Text) × (session.get_all ≡ some refs) × Source session kind role refs l)
unfolding subject_lines
subject_lines-Source session kind role l h = go (session.get_all) refl h
  where
    go :
        (all : Option (List Text))
        → session.get_all ≡ all
        → OneOf l (add_all all session kind role)
        → (l ≡ [])
          ⊎ ((refs : List Text) × (session.get_all ≡ some refs) × Source session kind role refs l)
    go none e h = absurd h
    go (some refs) e h = elim (add_subjects-Source session kind role refs [] l h) [
      | inl none_left ↦ absurd none_left
      | inr (inl ending) ↦ inl ending
      | inr (inr source) ↦ inr (refs, e, source)
    ]
