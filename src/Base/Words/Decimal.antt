-- ===== src/Base/Words/Decimal.antt =====
-- `str(n)` names a number: different numbers have different texts.
use xen_api.Base.Tests.{ltb, Bool-cases}
use xen_api.Base.Utf8.{Text}
use xen_api.Base.Words.{decimal_fuel, decimal}
use Prim.Native.Nat.{ℕ, zero, suc, ◌+◌, ◌-◌, ◌*◌, ◌/◌, ◌%◌, ◌<◌}
use mathlib.Core.Path.{◌≡◌, refl, sym, ap, ◌∙◌}
use mathlib.Core.Logic.{inl, inr}
use mathlib.Core.List.{[], ◌∷◌, ◌++◌}
use native.Mathlib.Omega.{arith}

value : ℕ → Text → ℕ
value acc [] = acc
value acc (c ∷ cs) = value (acc * 10 + (c - b'0')) cs

value-snoc :
    (acc : ℕ) (cs : Text) (c : ℕ) → value acc (cs ++ c ∷ []) ≡ value acc cs * 10 + (c - b'0')
unfolding value
value-snoc acc [] c = refl
value-snoc acc (d ∷ cs) c = value-snoc (acc * 10 + (d - b'0')) cs c

value-decimal : (fuel n : ℕ) → n < fuel → value 0 (decimal_fuel fuel n) ≡ n
unfolding decimal_fuel value
value-decimal zero n h = absurd (omega arith)
value-decimal (suc fuel) n h = elim (Bool-cases (ltb n 10)) [
  | inl small ↦ rw small (ground arith)
  | inr large ↦
      (let rest = value-decimal fuel (n / 10) (ground arith) in
        rw large
          (value-snoc 0 (decimal_fuel fuel (n / 10)) (b'0' + n % 10) ∙ rw rest (omega arith)))
]

pub decimal_injective : (n m : ℕ) → decimal n ≡ decimal m → n ≡ m
unfolding decimal
decimal_injective n m e =
    sym (value-decimal (suc n) n (omega arith))
    ∙ ap (value 0) e
    ∙ value-decimal (suc m) m (omega arith)
