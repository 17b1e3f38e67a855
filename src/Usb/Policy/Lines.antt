-- ===== src/Usb/Policy/Lines.antt =====
-- `parse_line` of usb_scan.py: what the rules that it appends look like, and a line that it fails on.
use xen_api.Base.{
  ℕ, zero, suc, ◌≡◌, refl, Bool, true, false, not, Option, none, some, List, [], ◌∷◌, ◌++◌, ◌&&◌,
  ◌||◌, if◌then◌else◌, length, arith, Bool-cases, Option-cases, inl, inr,
}
use xen_api.Base.Bytes.{bytes_eq}
use xen_api.Base.Utf8.{Text}
use xen_api.Base.Words.{strip}
use xen_api.Base.Exec.{Result, ok, err}
use xen_api.Usb.Types.{Failure, exits, unbound_local, is_empty, ◌>>=◌}
use xen_api.Usb.Policy.{
  Tag, Rule, spelling, same_tag, in_rule, check_hex_length, match_pair, parse_pairs, cut_comment,
  starts_with_hash, split_colon, parse_action, rule_with, parse_rule, parse_parts, parse_line,
}

-- Every value has the length that its tag asks for, and no tag stands twice.
abbrev pub IsWellFormed : List (Tag × Text) → Type 0
IsWellFormed [] = Unit
IsWellFormed ((t, value) ∷ ts) =
    (check_hex_length t value ≡ true) × (in_rule t ts ≡ false) × IsWellFormed ts

bytes_eq-sym : (xs ys : Text) → bytes_eq xs ys ≡ bytes_eq ys xs
unfolding bytes_eq
bytes_eq-sym [] [] = refl
bytes_eq-sym [] (y ∷ ys) = refl
bytes_eq-sym (x ∷ xs) [] = refl
bytes_eq-sym (x ∷ xs) (y ∷ ys) = ground (arith, bytes_eq-sym xs ys)

same_tag-sym : (t u : Tag) → same_tag t u ≡ same_tag u t
unfolding same_tag
same_tag-sym t u = bytes_eq-sym (spelling t) (spelling u)

in_rule-snoc :
    (t u : Tag) (v : Text) (ts : List (Tag × Text))
    → in_rule t (ts ++ (u, v) ∷ []) ≡ (in_rule t ts || same_tag t u)
unfolding in_rule
in_rule-snoc t u v [] = ground arith
in_rule-snoc t u v ((w, x) ∷ ts) = ground (arith, in_rule-snoc t u v ts)

snoc-IsWellFormed :
    (ts : List (Tag × Text)) (t : Tag) (value : Text)
    → IsWellFormed ts
    → check_hex_length t value ≡ true
    → in_rule t ts ≡ false
    → IsWellFormed (ts ++ (t, value) ∷ [])
unfolding in_rule
snoc-IsWellFormed [] t value h p q = (p, refl, tt)
snoc-IsWellFormed ((u, v) ∷ ts) t value h p q = (
  h.0,
  ground (arith, in_rule-snoc u t value ts, same_tag-sym t u, h.1, q),
  snoc-IsWellFormed ts t value h.2 p (ground (arith, q)),
)

pairs-IsWellFormed :
    (fuel : ℕ) (tags found : List (Tag × Text)) (s : Text)
    → IsWellFormed tags
    → parse_pairs fuel tags s ≡ ok found
    → IsWellFormed found
unfolding parse_pairs
pairs-IsWellFormed zero tags found [] h e = let same : tags ≡ found = ground arith in rw (← same) h
pairs-IsWellFormed zero tags found (c ∷ cs) h e = cc
pairs-IsWellFormed (suc fuel) tags found [] h e =
    let same : tags ≡ found = ground arith in rw (← same) h
pairs-IsWellFormed (suc fuel) tags found (c ∷ cs) h e = elim (Option-cases (match_pair (c ∷ cs))) [
  | inl missed ↦ absurd (ground (arith, missed))
  | inr ((t, value, rest), matched) ↦
      elim (Bool-cases (check_hex_length t value && not (in_rule t tags))) [
        | inl fine ↦
            pairs-IsWellFormed fuel (tags ++ (t, value) ∷ []) found rest
              (snoc-IsWellFormed tags t value h (ground (arith, fine)) (ground (arith, fine)))
              (ground (arith, matched, fine))
        | inr bad ↦ absurd (ground (arith, matched, bad))
      ]
]

abbrev pub RuleIsWellFormed : Result Failure (Option Rule) → Type 0
RuleIsWellFormed (ok (some r)) = IsWellFormed r.tags
RuleIsWellFormed _ = Unit

with_tags :
    (allow : Bool) (r : Result Failure (List (Tag × Text)))
    → ((tags : List (Tag × Text)) → r ≡ ok tags → IsWellFormed tags)
    → RuleIsWellFormed (r >>= λ tags. ok (some (record { allow = allow; tags = tags })))
with_tags allow (ok tags) h = h tags refl
with_tags allow (err e) h = tt

rule-IsWellFormed :
    (action : Option Bool) (target : Text) → RuleIsWellFormed (rule_with action target)
unfolding rule_with
rule-IsWellFormed none target = tt
rule-IsWellFormed (some allow) target =
    with_tags allow (parse_pairs (length target) [] target)
      (λ tags e. pairs-IsWellFormed (length target) [] tags target tt e)

stopped : (b : Bool) → RuleIsWellFormed (if b then err unbound_local else err exits)
stopped true = tt
stopped false = tt

parts-IsWellFormed :
    (line : Text) (parts : Text × List Text) → RuleIsWellFormed (parse_parts line parts)
unfolding parse_parts parse_rule
parts-IsWellFormed line (action, []) = stopped (is_empty (strip line))
parts-IsWellFormed line (action, target ∷ []) =
    rule-IsWellFormed (parse_action (strip action)) (strip target)
parts-IsWellFormed line (action, target ∷ more ∷ others) = stopped (is_empty (strip line))

-- In every rule that a line gives, no tag stands twice, and every value has the length of its
-- tag: two characters, or four for vid, pid and rel.
pub parse_line-IsWellFormed : (line : Text) → RuleIsWellFormed (parse_line line)
unfolding parse_line
parse_line-IsWellFormed line = elim (Bool-cases (is_empty (strip line))) [
  | inl blank ↦ rw blank tt
  | inr text ↦ elim (Bool-cases (starts_with_hash line)) [
    | inl comment ↦ rw (text, comment) tt
    | inr rule ↦
        rw (text, rule) (parts-IsWellFormed (cut_comment line) (split_colon (cut_comment line)))
  ]
]
