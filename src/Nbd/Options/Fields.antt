-- ===== src/Nbd/Options/Fields.antt =====
-- Reading the fields of a message that was packed field by field.
use xen_api.Base.{
  ℕ, zero, suc, ◌+◌, ◌<◌, ◌^◌, ◌≡◌, refl, sym, ap, ◌∙◌, [], ◌∷◌, ◌++◌, arith, length, take, drop,
  take-append,
}
use xen_api.Base.Bytes.{Bytes, encode, decode, length-encode, decode-encode}
use xen_api.Nbd.Options.{field}

drop_past : (xs ys : Bytes) (m from : ℕ) → m ≡ length xs + from → drop m (xs ++ ys) ≡ drop from ys
drop_past [] ys m from e = let e' : m ≡ from = omega arith in rw e'
drop_past (x ∷ xs) ys zero from e = absurd (omega arith)
drop_past (x ∷ xs) ys (suc m) from e = drop_past xs ys m from (omega arith)

-- A field behind a first field of `k` bytes.
pub field-skip :
    (k v : ℕ) (ys : Bytes) (m from w : ℕ)
    → m ≡ k + from
    → field m w (encode k v ++ ys) ≡ field from w ys
unfolding field
field-skip k v ys m from w e =
    ap (λ t. decode (take w t))
      (drop_past (encode k v) ys m from (omega (arith, length-encode k v)))

pub field-front : (w n : ℕ) (ys : Bytes) → n < 256 ^ w → field 0 w (encode w n ++ ys) ≡ n
unfolding field
field-front w n ys h =
    ap decode
      (ap (λ m. take m (encode w n ++ ys)) (sym (length-encode w n)) ∙ take-append (encode w n) ys)
    ∙ decode-encode w n h

pub field-last : (w n : ℕ) → n < 256 ^ w → field 0 w (encode w n) ≡ n
unfolding field
field-last w n h = ap decode (take_whole (encode w n) w (length-encode w n)) ∙ decode-encode w n h
  where
    take_whole : (xs : Bytes) (m : ℕ) → length xs ≡ m → take m xs ≡ xs
    take_whole [] zero e = refl
    take_whole [] (suc m) e = refl
    take_whole (x ∷ xs) zero e = absurd (omega arith)
    take_whole (x ∷ xs) (suc m) e = ap (λ t. x ∷ t) (take_whole xs m (omega arith))
