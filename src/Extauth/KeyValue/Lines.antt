-- ===== src/Extauth/KeyValue/Lines.antt =====
-- The entries that `_load_values` of extauth-hook-AD.py makes of the lines of a file.
use xen_api.Base.{
  ℕ, suc, ◌≤◌, ◌≡◌, ◌≢◌, refl, ◌∙◌, Bool, true, false, Option, some, none, List, [], ◌∷◌, ◌++◌,
  ◌||◌, if◌then◌else◌, Bool-cases, inl, inr, ◌⊎◌, arith,
}
use xen_api.Base.Dict.{assign, assign-absent, has_key, has_key-snoc, text_eq_sound}
use xen_api.Base.Bytes.{bytes_eq as text_eq}
use xen_api.Base.Utf8.{Text}
use xen_api.Base.Words.{behind, decimal}
use xen_api.Base.Words.Decimal.{decimal_injective}
use xen_api.Base.Words.Split.{is_empty, starts_with}
use xen_api.Extauth.KeyValue.{
  Values, special_line_prefix, is_special_line, is_comment_line, parse_pair, sp_key, load_pair,
  load_line,
}

-- A predicate of every element.
abbrev pub Each {ℓ} : {A : Type 0} → (A → Type ℓ) → List A → Type ℓ
Each P [] = Unit
Each P (x ∷ xs) = P x × Each P xs

-- A line among others
abbrev pub OneOf : Text → List Text → Type 0
OneOf l [] = ⊥
OneOf l (m ∷ ms) = (l ≡ m) ⊎ OneOf l ms

pub Each-map :
    {A : Type 0}
    → {P Q : A → Type 0} → (xs : List A) → ((x : A) → P x → Q x)
    → Each P xs
    → Each Q xs
Each-map [] f each = tt
Each-map (x ∷ xs) f (p, each) = (f x p, Each-map xs f each)

abbrev pub member : Text → List (Text × Text) → Bool
member k [] = false
member k ((k', v) ∷ us) = text_eq k k' || member k us

-- The key and the value of a line that has some.
unfoldable pub setting : Option Text → Text → Option (Text × Text)
setting sep line =
    if is_empty line then none else if is_comment_line line then none else parse_pair sep line

setting-parse_pair :
    (sep : Option Text) (line : Text)
    → is_empty line ≡ false
    → is_comment_line line ≡ false
    → setting sep line ≡ parse_pair sep line
unfolding setting
setting-parse_pair sep line filled code = rw (filled, code) refl

-- A key that begins with the reserved prefix
abbrev pub reserved : Option (Text × Text) → Bool
reserved none = false
reserved (some (k, v)) = is_special_line k

behind-append : (p s : Text) → behind p (p ++ s) ≡ some s
unfolding behind
behind-append [] s = refl
behind-append (c ∷ p) s = let rest = behind-append p s in ground (arith, rest)

starts_with-append : (p s : Text) → starts_with p (p ++ s) ≡ true
unfolding starts_with
starts_with-append p s = rw (behind-append p s, starts_with) refl

sp_key-special : (i : ℕ) → is_special_line (sp_key i) ≡ true
unfolding is_special_line sp_key
sp_key-special i = starts_with-append special_line_prefix (decimal i)

append_injective : (p s t : Text) → p ++ s ≡ p ++ t → s ≡ t
append_injective [] s t e = e
append_injective (c ∷ p) s t e = append_injective p s t (cc e)

sp_key_ne : (i j : ℕ) → i ≢ j → text_eq (sp_key i) (sp_key j) ≡ false
unfolding sp_key
sp_key_ne i j ne = elim (Bool-cases (text_eq (sp_key i) (sp_key j))) [
  | inl same ↦ absurd (
      ne (
        decimal_injective i j
          (append_injective special_line_prefix (decimal i) (decimal j) (text_eq_sound _ _ same))))
  | inr other ↦ other
]

ordinary_ne : (i : ℕ) (k : Text) → is_special_line k ≡ false → text_eq (sp_key i) k ≡ false
ordinary_ne i k h = elim (Bool-cases (text_eq (sp_key i) k)) [
  | inl same ↦ (let e = text_eq_sound (sp_key i) k same in absurd (cc (h, e, sp_key-special i)))
  | inr other ↦ other
]

-- What an entry can have come from a line as: the line itself, under a reserved key, or a key and a value
-- of the line, where an update may have changed the value.
abbrev pub FromLine : Option Text → List (Text × Text) → Text → Text × Text → Type 0
FromLine sep us line (k, v) =
    ((is_special_line k ≡ true) × (v ≡ line))
    ⊎ ((is_special_line k ≡ false)
        × (w : Text) × (setting sep line ≡ some (k, w))
        × ((v ≡ w) ⊎ (member k us ≡ true)))

-- The entry of an updated key
abbrev pub Updated : List (Text × Text) → Text × Text → Type 0
Updated us (k, v) = (is_special_line k ≡ false) × (member k us ≡ true)

-- One entry for each line, in order, and behind them those of updated keys.
abbrev pub Fits : Option Text → List (Text × Text) → List Text → Values → Type 0
Fits sep us [] es = Each (Updated us) es
Fits sep us (l ∷ ls) [] = ⊥
Fits sep us (l ∷ ls) (e ∷ es) = FromLine sep us l e × Fits sep us ls es

-- No key of a line that is still to come is there.
abbrev pub Fresh : ℕ → Values → Type 0
Fresh idx vs = (i : ℕ) → idx ≤ i → has_key (sp_key i) vs ≡ false

-- The entry that a line adds.
abbrev pub Adds : Option Text → List (Text × Text) → ℕ → Text → Values → Values → Type 0
Adds sep us idx line vs vs' =
    (e : Text × Text) × (vs' ≡ vs ++ e ∷ []) × FromLine sep us line e × Fresh (suc idx) vs'

Adds-line :
    (sep : Option Text) (us : List (Text × Text)) (idx : ℕ) (line : Text) (vs : Values)
    → Fresh idx vs
    → Adds sep us idx line vs (assign (sp_key idx) line vs)
Adds-line sep us idx line vs fresh =
    let snoc = assign-absent (sp_key idx) line vs (fresh idx (omega arith)) in
    (
      (sp_key idx, line),
      snoc,
      inl (sp_key-special idx, refl),
      λ i le.
          rw (snoc, has_key-snoc (sp_key i) (sp_key idx) line vs, fresh i (omega arith))
            (sp_key_ne i idx (λ e. absurd (omega (arith, e)))),
    )

Adds-pair :
    (sep : Option Text) (us : List (Text × Text)) (idx : ℕ) (line k v : Text) (vs : Values)
    → Fresh idx vs
    → setting sep line ≡ some (k, v)
    → is_special_line k ≡ false
    → has_key k vs ≡ false
    → Adds sep us idx line vs (assign k v vs)
Adds-pair sep us idx line k v vs fresh found ordinary absent =
    let snoc = assign-absent k v vs absent in
    (
      (k, v),
      snoc,
      inr (ordinary, v, found, inl refl),
      λ i le.
          rw (snoc, has_key-snoc (sp_key i) k v vs, fresh i (omega arith))
            (ordinary_ne i k ordinary),
    )

Adds-load_pair :
    (sep : Option Text) (us : List (Text × Text)) (idx : ℕ) (line : Text) (vs : Values)
    → Fresh idx vs
    → is_empty line ≡ false
    → is_comment_line line ≡ false
    → reserved (parse_pair sep line) ≡ false
    → (p : Option (Text × Text)) → parse_pair sep line ≡ p
    → Adds sep us idx line vs (load_pair p idx line vs)
Adds-load_pair sep us idx line vs fresh filled code ordinary none e =
    Adds-line sep us idx line vs fresh
Adds-load_pair sep us idx line vs fresh filled code ordinary (some (k, v)) e =
    elim (Bool-cases (has_key k vs)) [
      | inl there ↦ rw there (Adds-line sep us idx line vs fresh)
      | inr absent ↦ rw absent (
          Adds-pair sep us idx line k v vs fresh (setting-parse_pair sep line filled code ∙ e)
            (rw e at ordinary) absent)
    ]

pub Adds-load_line :
    (sep : Option Text) (us : List (Text × Text)) (idx : ℕ) (line : Text) (vs : Values)
    → Fresh idx vs
    → reserved (setting sep line) ≡ false
    → Adds sep us idx line vs (load_line sep idx line vs)
unfolding load_line
Adds-load_line sep us idx [] vs fresh ordinary = Adds-line sep us idx [] vs fresh
Adds-load_line sep us idx (c ∷ cs) vs fresh ordinary =
    elim (Bool-cases (is_comment_line (c ∷ cs))) [
      | inl comment ↦ rw comment (Adds-line sep us idx (c ∷ cs) vs fresh)
      | inr code ↦ rw code (
          Adds-load_pair sep us idx (c ∷ cs) vs fresh refl code
            (rw (setting-parse_pair sep (c ∷ cs) refl code) at ordinary) (parse_pair sep (c ∷ cs))
            refl)
    ]
