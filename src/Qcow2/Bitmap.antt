-- ===== src/Qcow2/Bitmap.antt =====
-- python3/libexec/qcow2-to-stdout.py: bitmaps in a bytearray, and `align_up`.
pub mod Laws
pub mod Count
use Prim.Native.Nat.{bit_and, bit_or}
use xen_api.Base.{
  ℕ, zero, suc, ◌+◌, ◌-◌, ◌*◌, ◌/◌, ◌%◌, ◌^◌, Bool, true, false, Option, none, some, List, [], ◌∷◌,
  not, ◌==◌, if◌then◌else◌, get_elem?, set,
}

abbrev pub Bitmap : Type 0
Bitmap = List ℕ

-- An index out of range is an IndexError, here `none`.
unfoldable pub bitmap_set : Bitmap → ℕ → Option Bitmap
bitmap_set bitmap idx = elim (get_elem? bitmap (idx / 8)) [
  | none ↦ none
  | some byte ↦ some (set bitmap (idx / 8) (bit_or byte (2 ^ (idx % 8))))
]

unfoldable pub bitmap_is_set : Bitmap → ℕ → Option Bool
bitmap_is_set bitmap idx = elim (get_elem? bitmap (idx / 8)) [
  | none ↦ none
  | some byte ↦ some (not (bit_and byte (2 ^ (idx % 8)) == 0))
]

-- `if bitmap_is_set(...)`, where the index is in range
abbrev pub test : Option Bool → Bool
test none = false
test (some b) = b

-- The indices from `idx` on, `n` of them, that are set.
unfoldable pub set_from : Bitmap → ℕ → ℕ → List ℕ
set_from bitmap idx zero = []
set_from bitmap idx (suc n) =
    let rest = set_from bitmap (idx + 1) n in
    if test (bitmap_is_set bitmap idx) then idx ∷ rest else rest

-- `bitmap_iterator(bitmap, length)`
unfoldable pub bitmap_iterator : Bitmap → ℕ → List ℕ
unfolding set_from
bitmap_iterator bitmap len = set_from bitmap 0 len

-- math.ceil(num / d), in exact arithmetic
unfoldable pub ceil_div : ℕ → ℕ → ℕ
ceil_div num d = (num + (d - 1)) / d

unfoldable pub align_up : ℕ → ℕ → ℕ
align_up num d = d * ceil_div num d
