-- ===== src/Extauth/KeyValue/Entries.antt =====
-- An ordered dict of extauth-hook-AD.py: what an assignment does to it.
use xen_api.Base.{
  ◌≡◌, refl, ap, ◌∙◌, true, false, Option, some, none, List, [], ◌∷◌, if◌then◌else◌, Bool-cases,
  inl, inr, ◌⊎◌, arith,
}
use xen_api.Base.Dict.{assign, text_eq_sound}
use xen_api.Base.Bytes.{bytes_eq as text_eq, bytes_eq_self}
use xen_api.Base.Utf8.{Text}
use xen_api.Extauth.KeyValue.{Values, update_all}

-- The value of a key.
unfoldable pub lookup : Text → Values → Option Text
lookup k [] = none
lookup k ((k', v) ∷ vs) = let rest = lookup k vs in if text_eq k k' then some v else rest

pub lookup-assign : (k v : Text) (vs : Values) → lookup k (assign k v vs) ≡ some v
unfolding lookup assign
lookup-assign k v [] = ground (arith, bytes_eq_self k)
lookup-assign k v ((k', v') ∷ vs) = let rest = lookup-assign k v vs in ground (arith, rest)

pub lookup-assign_ne :
    (j k v : Text) (vs : Values) → text_eq j k ≡ false → lookup j (assign k v vs) ≡ lookup j vs
unfolding lookup assign
lookup-assign_ne j k v [] h = ground arith
lookup-assign_ne j k v ((k', v') ∷ vs) h = elim (Bool-cases (text_eq k k')) [
  | inl same ↦
      (let e : text_eq j k' ≡ false = rw (← text_eq_sound k k' same) h in ground (arith, e))
  | inr other ↦ (let rest = lookup-assign_ne j k v vs h in ground (arith, rest))
]

-- The value that a key has after some updates: that of the last one for it.
abbrev pub final_value : Text → List (Text × Text) → Option Text → Option Text
final_value j [] before = before
final_value j ((k, v) ∷ us) before = final_value j us (if text_eq j k then some v else before)

pub lookup-update_all :
    (j : Text) (us : List (Text × Text)) (vs : Values)
    → lookup j (update_all us vs) ≡ final_value j us (lookup j vs)
unfolding update_all
lookup-update_all j [] vs = refl
lookup-update_all j ((k, v) ∷ us) vs =
    lookup-update_all j us (assign k v vs) ∙ ap (final_value j us) (one (Bool-cases (text_eq j k)))
  where
    one :
        (text_eq j k ≡ true) ⊎ (text_eq j k ≡ false)
        → lookup j (assign k v vs) ≡ (if text_eq j k then some v else lookup j vs)
    one (inl same) = rw (same, text_eq_sound j k same) (lookup-assign k v vs)
    one (inr other) = rw other (lookup-assign_ne j k v vs other)
