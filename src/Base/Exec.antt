-- ===== src/Base/Exec.antt =====
-- Python code that mutates an object and may raise: what was written before a raise stays written,
-- so the state comes back beside the error too.
use mathlib.Core.Bool.{Bool, true, false}
use mathlib.Core.Option.{Option, none, some}
use mathlib.Core.Path.{◌≡◌, refl, ap}

pub data Result (E A : Type 0) : Type 0 where
  ok : A → Result E A
  err : E → Result E A

abbrev pub Exec : Type 0 → Type 0 → Type 0 → Type 0
Exec E S A = S → Result E A × S

module _ {E S A : Type 0} where
  abbrev pub pure : A → Exec E S A
  pure a s = (ok a, s)

  abbrev pub raise : E → Exec E S A
  raise e s = (err e, s)

  abbrev pub gets : (S → A) → Exec E S A
  gets f s = (ok (f s), s)

  abbrev pub or_raise : Option A → E → Exec E S A
  or_raise none e = raise e
  or_raise (some a) _ = pure a

module _ {E S A B : Type 0} where
  abbrev pub continue : (A → Exec E S B) → Result E A → S → Result E B × S
  continue f (ok a) s = f a s
  continue f (err e) s = (err e, s)

  infixl 5 ◌>>=◌
  abbrev pub ◌>>=◌ : Exec E S A → (A → Exec E S B) → Exec E S B
  ◌>>=◌ m f s = let (r, s') = m s in continue f r s'

  infixl 5 ◌>>◌
  abbrev pub ◌>>◌ : Exec E S A → Exec E S B → Exec E S B
  m >> k = m >>= λ _. k

module _ {E S : Type 0} where
  abbrev pub modify : (S → S) → Exec E S (Unit {0})
  modify f s = (ok tt, f s)

  -- `if not b: raise e`
  abbrev pub guard : Bool → E → Exec E S (Unit {0})
  guard true e = pure tt
  guard false e = raise e

  abbrev pub when : Bool → Exec E S (Unit {0}) → Exec E S (Unit {0})
  when true m = m
  when false m = pure tt

pub ok_injective : {E A : Type 0} → {a b : A} → Path (Result E A) (ok a) (ok b) → a ≡ b
ok_injective e = cc e

-- A sequence that returns: its first part has returned.
pub bind-ok :
    {E S A B : Type 0}
    → (m : Exec E S A) (f : A → Exec E S B) (s s' : S) (b : B) → (m >>= f) s ≡ (ok b, s')
    → (a : A) × (s1 : S) × (m s ≡ (ok a, s1)) × (f a s1 ≡ (ok b, s'))
bind-ok {E = E} {S = S} {A = A} {B = B} m f s s' b e = go (m s) refl e
  where
    go :
        (p : Result E A × S)
        → m s ≡ p
        → continue f (p.0) (p.1) ≡ (ok b, s')
        → (a : A) × (s1 : S) × (m s ≡ (ok a, s1)) × (f a s1 ≡ (ok b, s'))
    go (ok a, s1) q e = (a, s1, q, e)
    go (err g, s1) q e = absurd (cc (ap (λ p. p.0) e))
