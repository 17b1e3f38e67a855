-- ===== src/Igmp/Watches.antt =====
-- igmp_query_injector.py: the watches are those of the start, less those that were taken away.
use xen_api.Base.{
  true, false, Option, some, none, List, [], ◌∷◌, ◌≡◌, refl, if◌then◌else◌, Bool-cases, inl, inr,
  arith,
}
use xen_api.Base.Dict.{has_key, assign, text_eq_sound}
use xen_api.Base.Bytes.{bytes_eq as text_eq, bytes_eq_self}
use xen_api.Base.Utf8.{Text}
use xen_api.Igmp.Injector.{pop, watch_all}

-- The token of a watched path
abbrev pub token_of : Text → List (Text × Text) → Option Text
token_of k [] = none
token_of k ((k', v) ∷ ws) = let rest = token_of k ws in if text_eq k k' then some v else rest

pub has_key-token_of :
    (k v : Text) (ws : List (Text × Text)) → token_of k ws ≡ some v → has_key k ws ≡ true
unfolding has_key
has_key-token_of k v [] e = absurd (cc e)
has_key-token_of k v ((k', w) ∷ ws) e =
    let rest = has_key-token_of k v ws in ground (arith, rest, e)

pub token_of-has_key :
    (k : Text) (ws : List (Text × Text))
    → has_key k ws ≡ true
    → (v : Text) × (token_of k ws ≡ some v)
unfolding has_key
token_of-has_key k [] h = absurd (ground arith)
token_of-has_key k ((k', w) ∷ ws) h = elim (Bool-cases (text_eq k k')) [
  | inl same ↦ (w, rw same refl)
  | inr other ↦ (let (v, e) = token_of-has_key k ws (rw other at h) in (v, rw other e))
]

-- No path is watched twice.
abbrev pub Distinct : List (Text × Text) → Type 0
Distinct [] = Unit
Distinct ((k, v) ∷ ws) = (has_key k ws ≡ false) × Distinct ws

-- The watched paths have the tokens that they have there.
abbrev pub IsPart : List (Text × Text) → List (Text × Text) → Type 0
IsPart ws all = (k v : Text) → token_of k ws ≡ some v → token_of k all ≡ some v

text_eq_sym : (s t : Text) → text_eq s t ≡ false → text_eq t s ≡ false
text_eq_sym s t ne = elim (Bool-cases (text_eq t s)) [
  | inr other ↦ other
  | inl same ↦
      (let e = text_eq_sound t s same in
        let same' : text_eq s t ≡ true = rw e (bytes_eq_self s) in absurd (cc (same', ne)))
]

has_key-assign :
    (j k v : Text) (ws : List (Text × Text))
    → text_eq j k ≡ false
    → has_key j ws ≡ false
    → has_key j (assign k v ws) ≡ false
unfolding has_key assign
has_key-assign j k v [] ne h = rw ne refl
has_key-assign j k v ((k', w) ∷ ws) ne h =
    let rest = has_key-assign j k v ws ne in ground (arith, rest)

assign-Distinct : (k v : Text) (ws : List (Text × Text)) → Distinct ws → Distinct (assign k v ws)
unfolding has_key assign
assign-Distinct k v [] d = (refl, tt)
assign-Distinct k v ((k', w) ∷ ws) d = elim (Bool-cases (text_eq k k')) [
  | inl same ↦ rw same d
  | inr other ↦
      rw other (has_key-assign k' k v ws (text_eq_sym k k' other) d.0, assign-Distinct k v ws d.1)
]

pub watch_all-Distinct :
    (paths : Text → Text × Text) (vifs : List Text) (ws : List (Text × Text))
    → Distinct ws
    → Distinct (watch_all paths vifs ws)
unfolding watch_all
watch_all-Distinct paths [] ws d = d
watch_all-Distinct paths (vif ∷ vifs) ws d =
    watch_all-Distinct paths vifs _
      (assign-Distinct ((paths vif).1) vif _ (assign-Distinct ((paths vif).0) vif ws d))

has_key-pop :
    (j k : Text) (ws : List (Text × Text)) → has_key j ws ≡ false → has_key j (pop k ws) ≡ false
unfolding has_key pop
has_key-pop j k [] h = refl
has_key-pop j k ((k', w) ∷ ws) h = let rest = has_key-pop j k ws in ground (arith, rest)

pub pop-Distinct : (k : Text) (ws : List (Text × Text)) → Distinct ws → Distinct (pop k ws)
unfolding pop
pop-Distinct k [] d = tt
pop-Distinct k ((k', w) ∷ ws) d = elim (Bool-cases (text_eq k k')) [
  | inl same ↦ rw same d.1
  | inr other ↦ rw other (has_key-pop k' k ws d.0, pop-Distinct k ws d.1)
]

pub pop-IsPart : (k : Text) (ws : List (Text × Text)) → Distinct ws → IsPart (pop k ws) ws
unfolding pop
pop-IsPart k [] d j v e = e
pop-IsPart k ((k', w) ∷ ws) d j v e = elim (Bool-cases (text_eq k k')) [
  | inl same ↦ behind (rw same at e)
  | inr other ↦ further (pop-IsPart k ws d.1 j v) (rw other at e)
]
  where
    behind : token_of j ws ≡ some v → token_of j ((k', w) ∷ ws) ≡ some v
    behind t = elim (Bool-cases (text_eq j k')) [
      | inr ne ↦ rw ne t
      | inl eq ↦
          (let there = has_key-token_of j v ws t in
            let there' = rw (text_eq_sound j k' eq) at there in absurd (cc (there', d.0)))
    ]

    further :
        (token_of j (pop k ws) ≡ some v → token_of j ws ≡ some v)
        → token_of j ((k', w) ∷ pop k ws) ≡ some v
        → token_of j ((k', w) ∷ ws) ≡ some v
    further again t = elim (Bool-cases (text_eq j k')) [
      | inl eq ↦ (let t' = rw eq at t in rw eq t')
      | inr ne ↦ (let t' = rw ne at t in rw ne (again t'))
    ]
