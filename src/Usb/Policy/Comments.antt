-- ===== src/Usb/Policy/Comments.antt =====
-- An indented comment in the policy file of usb_scan.py.
use mathlib.Core.List.{reverse, reverse-append}
use xen_api.Base.{ℕ, ◌≡◌, refl, sym, ap, ◌∙◌, append-nil, true, false, [], ◌∷◌, ◌++◌, ◌==◌, arith}
use xen_api.Base.Utf8.{Text}
use xen_api.Base.Words.{strip, lstrip, is_space}
use xen_api.Base.Exec.{err}
use xen_api.Usb.Types.{unbound_local, is_empty}
use xen_api.Usb.Policy.{cut_comment, split_colon, parse_parts, parse_line}

-- Every character is white space.
abbrev pub IsSpaces : Text → Type 0
IsSpaces [] = Unit
IsSpaces (c ∷ cs) = (is_space c ≡ true) × IsSpaces cs

lstrip-spaces : (s t : Text) → IsSpaces s → lstrip (s ++ t) ≡ lstrip t
unfolding lstrip
lstrip-spaces [] t h = refl
lstrip-spaces (c ∷ cs) t h = rw h.0 (lstrip-spaces cs t h.1)

lstrip-hash : (s : Text) → is_empty (lstrip (s ++ b'#' ∷ [])) ≡ false
unfolding lstrip
lstrip-hash [] = unfold is_space in refl
lstrip-hash (c ∷ cs) = ground (arith, lstrip-hash cs)

hash : (t : Text) → lstrip (b'#' ∷ t) ≡ b'#' ∷ t
unfolding lstrip is_space
hash t = refl

reverse_empty : (s : Text) → is_empty s ≡ false → is_empty (reverse s) ≡ false
reverse_empty [] h = h
reverse_empty (c ∷ cs) h = rw (reverse-append (c ∷ []) cs) (snoc (reverse cs))
  where
    snoc : (s : Text) → is_empty (s ++ c ∷ []) ≡ false
    snoc [] = refl
    snoc (x ∷ xs) = refl

strip-hash : (s t : Text) → IsSpaces s → is_empty (strip (s ++ b'#' ∷ t)) ≡ false
unfolding strip
strip-hash s t h = reverse_empty (lstrip (reverse (lstrip (s ++ b'#' ∷ t)))) inner
  where
    inner : is_empty (lstrip (reverse (lstrip (s ++ b'#' ∷ t)))) ≡ false
    inner =
        ap (λ x. is_empty (lstrip (reverse x))) (lstrip-spaces s (b'#' ∷ t) h ∙ hash t)
        ∙ ap (λ x. is_empty (lstrip x)) (reverse-append (b'#' ∷ []) t)
        ∙ lstrip-hash (reverse t)

lstrip-nil : lstrip [] ≡ []
unfolding lstrip
lstrip-nil = refl

lstrip-only_spaces : (s : Text) → IsSpaces s → lstrip s ≡ []
lstrip-only_spaces s h = ap lstrip (sym (append-nil s)) ∙ lstrip-spaces s [] h ∙ lstrip-nil

strip-spaces : (s : Text) → IsSpaces s → strip s ≡ []
unfolding strip
strip-spaces s h =
    ap (λ x. reverse (lstrip (reverse x))) (lstrip-only_spaces s h) ∙ ap reverse lstrip-nil

no_hash : (c : ℕ) → is_space c ≡ true → (c == b'#') ≡ false
unfolding is_space
no_hash c h = ground arith

no_colon : (c : ℕ) → is_space c ≡ true → (c == b':') ≡ false
unfolding is_space
no_colon c h = ground arith

cut-spaces : (s t : Text) → IsSpaces s → cut_comment (s ++ b'#' ∷ t) ≡ s
unfolding cut_comment
cut-spaces [] t h = refl
cut-spaces (c ∷ cs) t h = rw (no_hash c h.0) (ap (λ x. c ∷ x) (cut-spaces cs t h.1))

split-spaces : (s : Text) → IsSpaces s → split_colon s ≡ (s, [])
unfolding split_colon
split-spaces [] h = refl
split-spaces (c ∷ cs) h = ground (arith, no_colon c h.0, split-spaces cs h.1)

-- A line with white space and then a comment, and nothing else, is not skipped: `action` is read with no
-- value, and the program fails.
pub indented_comment_fails :
    (c : ℕ) (spaces comment : Text)
    → IsSpaces (c ∷ spaces)
    → parse_line ((c ∷ spaces) ++ b'#' ∷ comment) ≡ err unbound_local
unfolding parse_line parse_parts
indented_comment_fails c spaces comment h =
    rw
      (
        strip-hash (c ∷ spaces) comment h,
        no_hash c h.0,
        cut-spaces (c ∷ spaces) comment h,
        split-spaces (c ∷ spaces) h,
        strip-spaces (c ∷ spaces) h,
      )
      refl
