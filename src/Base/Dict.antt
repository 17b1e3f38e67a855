-- ===== src/Base/Dict.antt =====
-- Python's dict with texts for keys: the entries in the order in which their keys were added.
use mathlib.Core.Path.{◌≡◌, refl}
use mathlib.Core.Bool.{Bool, true, false, ◌||◌}
use mathlib.Core.List.{List, [], ◌∷◌, ◌++◌}
use native.Mathlib.Omega.{arith}
use xen_api.Base.Tests.{if◌then◌else◌}
use xen_api.Base.Bytes.{bytes_eq as text_eq}
use xen_api.Base.Utf8.{Text}

pub text_eq_sound : (s t : Text) → text_eq s t ≡ true → s ≡ t
unfolding text_eq
text_eq_sound [] [] h = refl
text_eq_sound [] (d ∷ t) h = absurd (ground arith)
text_eq_sound (c ∷ s) [] h = absurd (ground arith)
text_eq_sound (c ∷ s) (d ∷ t) h = let e = text_eq_sound s t (ground arith) in ground (arith, e)

module _ {A : Type 0} where
  unfoldable pub has_key : Text → List (Text × A) → Bool
  has_key k [] = false
  has_key k ((k', v) ∷ vs) = text_eq k k' || has_key k vs

  -- `d[k] = v`: a key that is there keeps its place.
  unfoldable pub assign : Text → A → List (Text × A) → List (Text × A)
  assign k v [] = (k, v) ∷ []
  assign k v ((k', v') ∷ vs) =
      let rest = assign k v vs in if text_eq k k' then (k', v) ∷ vs else (k', v') ∷ rest

  -- A key that is not there goes to the end.
  pub assign-absent :
      (k : Text) (v : A) (vs : List (Text × A))
      → has_key k vs ≡ false
      → assign k v vs ≡ vs ++ (k, v) ∷ []
  unfolding assign has_key
  assign-absent k v [] h = refl
  assign-absent k v ((k', v') ∷ vs) h =
      let rest = assign-absent k v vs (ground arith) in ground (arith, rest)

  pub has_key-snoc :
      (k k' : Text) (v : A) (vs : List (Text × A))
      → has_key k (vs ++ (k', v) ∷ []) ≡ (has_key k vs || text_eq k k')
  unfolding has_key
  has_key-snoc k k' v [] = ground arith
  has_key-snoc k k' v ((j, w) ∷ vs) = let rest = has_key-snoc k k' v vs in ground (arith, rest)
