-- ===== src/Base/Bytes.antt =====
-- Byte strings, and the big-endian fields of Python's `struct`: `pack` of the codes H, L and Q is
-- `encode` at widths 2, 4 and 8, and `unpack` is `decode`.
use Prim.Native.Nat.{ℕ, zero, suc, ◌+◌, ◌*◌, ◌/◌, ◌%◌, ◌^◌, ◌<◌}
use Prim.Native.Char.{code}
use Prim.Native.String.{String}
use mathlib.Core.Path.{◌≡◌, refl}
use mathlib.Core.Bool.{Bool, true, false, ◌&&◌}
use mathlib.Core.List.{List, [], ◌∷◌, ◌++◌}
use native.Mathlib.Omega.{arith}
use native.Mathlib.Nat.{pow-suc}
use xen_api.Base.Tests.{◌==◌}
use xen_api.Base.Lists.{length, length-append}

-- The code points of a literal: its bytes, if it is ASCII.
abbrev pub codes : String → List ℕ
codes String.[] = []
codes (String.◌∷◌ c s) = code c ∷ codes s

-- `bytes` in Python: a list of numbers below 256.
abbrev pub Bytes : Type 0
Bytes = List ℕ

-- The most significant byte stands first: the low byte of `n` goes behind the others.
unfoldable pub encode : ℕ → ℕ → Bytes
encode zero n = []
encode (suc w) n = encode w (n / 256) ++ (n % 256) ∷ []

decode_from : ℕ → Bytes → ℕ
decode_from acc [] = acc
decode_from acc (b ∷ bs) = decode_from (acc * 256 + b) bs

unfoldable pub decode : Bytes → ℕ
unfolding decode_from
decode bs = decode_from 0 bs

pub length-encode : (w n : ℕ) → length (encode w n) ≡ w
unfolding encode
length-encode zero n = refl
length-encode (suc w) n =
    omega (arith, length-append (encode w (n / 256)) ((n % 256) ∷ []), length-encode w (n / 256))

decode_from-snoc :
    (acc : ℕ) (bs : Bytes) (b : ℕ) → decode_from acc (bs ++ b ∷ []) ≡ decode_from acc bs * 256 + b
unfolding decode_from
decode_from-snoc acc [] b = refl
decode_from-snoc acc (x ∷ bs) b = decode_from-snoc (acc * 256 + x) bs b

-- A field that fits its width is read back as it was written.
pub decode-encode : (w n : ℕ) → n < 256 ^ w → decode (encode w n) ≡ n
unfolding decode encode
decode-encode zero n h = omega arith
decode-encode (suc w) n h =
    let small : n / 256 < 256 ^ w = omega (arith, pow-suc 256 w) in
    let high : decode_from 0 (encode w (n / 256)) ≡ n / 256 = decode-encode w (n / 256) small in
    rw (decode_from-snoc 0 (encode w (n / 256)) (n % 256)) (omega (arith, high))

-- `a == b` on byte strings.
unfoldable pub bytes_eq : Bytes → Bytes → Bool
bytes_eq [] [] = true
bytes_eq (x ∷ xs) (y ∷ ys) = (x == y) && bytes_eq xs ys
bytes_eq _ _ = false

pub bytes_eq_self : (bs : Bytes) → bytes_eq bs bs ≡ true
unfolding bytes_eq
bytes_eq_self [] = refl
bytes_eq_self (b ∷ bs) = ground (arith, bytes_eq_self bs)
