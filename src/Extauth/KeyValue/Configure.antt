-- ===== src/Extauth/KeyValue/Configure.antt =====
-- The lines that a subclass of `KeyValueConfig` of extauth-hook-AD.py writes, next to those that it read.
use xen_api.Base.{
  ℕ, suc, ◌≡◌, refl, sym, ap, ◌∙◌, true, false, Option, some, none, List, [], ◌∷◌, ◌++◌,
  append_assoc, append-nil, Bool-cases, inl, inr, ◌⊎◌, arith,
}
use xen_api.Base.Dict.{assign, has_key, text_eq_sound}
use xen_api.Base.Bytes.{bytes_eq as text_eq, bytes_eq_self}
use xen_api.Base.Utf8.{Text}
use xen_api.Extauth.KeyValue.{
  Values, is_special_line, effective_sep, load_line, load_values, shown_sep, apply_value,
  apply_to_cache, update_all, new_values, configure,
}
use xen_api.Extauth.KeyValue.Entries.{lookup, lookup-update_all, final_value}
use xen_api.Extauth.KeyValue.Lines.{
  OneOf, Each, Each-map, member, setting, reserved, FromLine, Updated, Fits, Fresh, Adds-load_line,
}

Loads : Option Text → List (Text × Text) → ℕ → List Text → Values → Type 0
Loads sep us idx ls vs = (es : Values) × (load_values sep idx ls vs ≡ vs ++ es) × Fits sep us ls es

load_values-Fits :
    (sep : Option Text) (us : List (Text × Text)) (idx : ℕ) (ls : List Text) (vs : Values)
    → Fresh idx vs
    → Each (λ l. reserved (setting sep l) ≡ false) ls
    → Loads sep us idx ls vs
unfolding load_values Loads
load_values-Fits sep us idx [] vs fresh ordinary = ([], sym (append-nil vs), tt)
load_values-Fits sep us idx (l ∷ ls) vs fresh (plain, ordinary) =
    let (e, added, from, later) = Adds-load_line sep us idx l vs fresh plain in
    let (es, loaded, fits) =
      load_values-Fits sep us (suc idx) ls (load_line sep idx l vs) later ordinary in
    (e ∷ es, loaded ∙ ap (λ t. t ++ es) added ∙ append_assoc vs (e ∷ []) es, (from, fits))

-- An update of a key that may be updated
assign-Fits :
    (sep : Option Text) (us : List (Text × Text)) (k v : Text) (ls : List Text) (es : Values)
    → Updated us (k, v)
    → Fits sep us ls es
    → Fits sep us ls (assign k v es)
unfolding assign
assign-Fits sep us k v [] [] new fits = (new, tt)
assign-Fits sep us k v [] ((k', v') ∷ es) new (old, fits) = elim (Bool-cases (text_eq k k')) [
  | inl same ↦ rw same (old, fits)
  | inr other ↦ rw other (old, assign-Fits sep us k v [] es new fits)
]
assign-Fits sep us k v (l ∷ ls) [] new fits = absurd fits
assign-Fits sep us k v (l ∷ ls) ((k', v') ∷ es) new (from, fits) =
    elim (Bool-cases (text_eq k k')) [
      | inl same ↦ rw same (changed (text_eq_sound k k' same) new from, fits)
      | inr other ↦ rw other (from, assign-Fits sep us k v ls es new fits)
    ]
  where
    changed : k ≡ k' → Updated us (k, v) → FromLine sep us l (k', v') → FromLine sep us l (k', v)
    changed e (ordinary, there) (inl (special, _)) = absurd (cc (e, ordinary, special))
    changed e (ordinary, there) (inr (plain, w, found, _)) =
        inr (plain, w, found, inr (rw (← e) there))

update_all-Fits :
    (sep : Option Text) (us updates : List (Text × Text)) (ls : List Text) (es : Values)
    → Each (Updated us) updates
    → Fits sep us ls es
    → Fits sep us ls (update_all updates es)
unfolding update_all
update_all-Fits sep us [] ls es new fits = fits
update_all-Fits sep us ((k, v) ∷ updates) ls es (one, new) fits =
    update_all-Fits sep us updates ls (assign k v es) new (assign-Fits sep us k v ls es one fits)

-- The keys of some updates are among them.
Each-Updated :
    (us : List (Text × Text)) → Each (λ u. is_special_line (u.0) ≡ false) us → Each (Updated us) us
Each-Updated [] each = tt
Each-Updated ((k, v) ∷ us) (plain, each) = (
  (plain, rw (bytes_eq_self k) refl),
  Each-map us (λ u (ordinary, there). (ordinary, rw there (ground arith))) (Each-Updated us each),
)

-- A line that is written for a line: the line, its key and value with the separator between them, or its
-- key with another value, if the key is updated.
abbrev pub Kept : Option Text → List (Text × Text) → Text → Text → Type 0
Kept sep us line out =
    (out ≡ line)
    ⊎ ((k : Text) × (w : Text) × (setting sep line ≡ some (k, w))
        × ((out ≡ k ++ (shown_sep sep ++ w))
            ⊎ ((member k us ≡ true) × (v : Text) × (out ≡ k ++ (shown_sep sep ++ v)))))

-- A line for an updated key
abbrev pub Added : Option Text → List (Text × Text) → Text → Type 0
Added sep us out =
    (k : Text) × (v : Text) × (member k us ≡ true) × (out ≡ k ++ (shown_sep sep ++ v))

-- A line for each line, in order, and behind them lines for updated keys.
abbrev pub Keeps : Option Text → List (Text × Text) → List Text → List Text → Type 0
Keeps sep us [] outs = Each (Added sep us) outs
Keeps sep us (l ∷ ls) [] = ⊥
Keeps sep us (l ∷ ls) (out ∷ outs) = Kept sep us l out × Keeps sep us ls outs

Kept-apply_value :
    (sep : Option Text) (us : List (Text × Text)) (l k v : Text)
    → FromLine sep us l (k, v)
    → Kept sep us l (apply_value sep (k, v))
unfolding apply_value
Kept-apply_value sep us l k v (inl (special, e)) = rw special (inl e)
Kept-apply_value sep us l k v (inr (plain, w, found, inl e)) =
    rw plain (inr (k, w, found, inl (rw e refl)))
Kept-apply_value sep us l k v (inr (plain, w, found, inr there)) =
    rw plain (inr (k, w, found, inr (there, v, refl)))

Keeps-apply_to_cache :
    (sep : Option Text) (us : List (Text × Text)) (ls : List Text) (es : Values)
    → Fits sep us ls es
    → Keeps sep us ls (apply_to_cache sep es)
unfolding apply_to_cache apply_value
Keeps-apply_to_cache sep us [] [] fits = tt
Keeps-apply_to_cache sep us [] ((k, v) ∷ es) ((plain, there), fits) =
    ((k, v, there, added plain), Keeps-apply_to_cache sep us [] es fits)
  where
    added : is_special_line k ≡ false → apply_value sep (k, v) ≡ k ++ (shown_sep sep ++ v)
    added plain = rw plain refl
Keeps-apply_to_cache sep us (l ∷ ls) [] fits = absurd fits
Keeps-apply_to_cache sep us (l ∷ ls) ((k, v) ∷ es) (from, fits) =
    (Kept-apply_value sep us l k v from, Keeps-apply_to_cache sep us ls es fits)

-- Where no key of a line and no updated key begins with the reserved prefix, a file is written with one
-- line for each line that it had, in their order, and behind them only lines for updated keys. The line
-- for a line is the line itself, or its key and value with the separator between them, or its key with
-- another value, and then the key is one of those updated.
pub configure-Keeps :
    (sep : Text) (us : List (Text × Text)) (lines : List Text)
    → Each (λ l. reserved (setting (effective_sep sep) l) ≡ false) lines
    → Each (λ u. is_special_line (u.0) ≡ false) us
    → Keeps (effective_sep sep) us lines (configure sep us lines)
unfolding configure new_values Loads has_key
configure-Keeps sep us lines plain ordinary =
    let s = effective_sep sep in
    let (es, loaded, fits) = load_values-Fits s us 0 lines [] (λ i le. refl) plain in
    rw loaded (
      Keeps-apply_to_cache s us lines (update_all us es)
        (update_all-Fits s us us lines es (Each-Updated us ordinary) fits))

shown :
    (sep : Option Text) (k v : Text) (es : Values)
    → is_special_line k ≡ false
    → lookup k es ≡ some v
    → OneOf (k ++ (shown_sep sep ++ v)) (apply_to_cache sep es)
unfolding apply_to_cache lookup apply_value
shown sep k v [] plain e = absurd (cc e)
shown sep k v ((k', v') ∷ es) plain e = elim (Bool-cases (text_eq k k')) [
  | inl same ↦
      (let k≡k' = text_eq_sound k k' same in
        let v'≡v : some v' ≡ some v = rw same at e in inl (rw (← k≡k', plain) (cc v'≡v)))
  | inr other ↦ inr (shown sep k v es plain (rw other at e))
]

-- For an updated key that does not begin with the reserved prefix, the file is written with a line of the
-- key and the last value that it is updated to.
pub configure-Updates :
    (sep : Text) (us : List (Text × Text)) (lines : List Text) (k v : Text)
    → is_special_line k ≡ false
    → final_value k us none ≡ some v
    → OneOf (k ++ (shown_sep (effective_sep sep) ++ v)) (configure sep us lines)
unfolding configure new_values
configure-Updates sep us lines k v plain e =
    let s = effective_sep sep in
    let before = load_values s 0 lines [] in
    shown s k v (update_all us before) plain
      (lookup-update_all k us before ∙ final us (lookup k before) e)
  where
    final :
        (us : List (Text × Text)) (before : Option Text)
        → final_value k us none ≡ some v
        → final_value k us before ≡ some v
    final [] before e = absurd (cc e)
    final ((k', v') ∷ us) before e = elim (Bool-cases (text_eq k k')) [
      | inl same ↦ rw same (rw same at e)
      | inr other ↦ rw other (final us before (rw other at e))
    ]
