-- ===== src/Qcow2/Bitmap/Laws.antt =====
-- The bitmaps of qcow2-to-stdout.py as sets of indices.
use Prim.Native.Nat.{bit_and, bit_or}
use xen_api.Base.{
  ℕ, zero, suc, ◌*◌, ◌/◌, ◌%◌, ◌^◌, ◌<◌, ◌≡◌, refl, Bool, true, false, some, List, [], ◌∷◌, not,
  ◌==◌, ◌&&◌, ltb, if◌then◌else◌, length, get_elem?, set, arith, ==_iff, length-set,
  get_elem?-set_self, get_elem?-set_ne, Option-cases, Bool-cases, inl, inr,
}
use xen_api.Qcow2.Bitmap.{Bitmap, bitmap_set, bitmap_is_set}

-- A test of every number below a bound.
every : ℕ → (ℕ → Bool) → Bool
every zero p = true
every (suc n) p = p n && every n p

every_at : (n : ℕ) (p : ℕ → Bool) → every n p ≡ true → (x : ℕ) → x < n → p x ≡ true
unfolding every
every_at zero p h x l = absurd (omega arith)
every_at (suc n) p h x l = ground (arith, every_at n p (ground arith) x)

-- The digit `m` of a byte once the digit `k` is set, and that the result is a byte.
digit_ok : ℕ → ℕ → ℕ → Bool
digit_ok v k m = elim (bit_and (bit_or v (2 ^ k)) (2 ^ m) == 0) [
  | true ↦ not (k == m) && (bit_and v (2 ^ m) == 0)
  | false ↦ if k == m then true else not (bit_and v (2 ^ m) == 0)
]

digits_table :
    every 256 (λ v. every 8 (λ k. ltb (bit_or v (2 ^ k)) 256 && every 8 (λ m. digit_ok v k m)))
    ≡ true
unfolding every digit_ok
digits_table = refl

module _ (v k : ℕ) (hv : v < 256) (hk : k < 8) where
  row : (ltb (bit_or v (2 ^ k)) 256 && every 8 (λ m. digit_ok v k m)) ≡ true
  row = every_at 8 _ (every_at 256 _ digits_table v hv) k hk

  byte-lt : bit_or v (2 ^ k) < 256
  byte-lt = ground (arith, row)

  byte_digit :
      (m : ℕ)
      → m < 8
      → not (bit_and (bit_or v (2 ^ k)) (2 ^ m) == 0)
        ≡ (if k == m then true else not (bit_and v (2 ^ m) == 0))
  unfolding digit_ok
  byte_digit m hm =
      let ok : digit_ok v k m ≡ true =
        every_at 8 (λ m. digit_ok v k m) (ground (arith, row)) m hm in
      ground (arith, ok)

-- Every entry is a byte.
abbrev pub IsBytes : Bitmap → Type 0
IsBytes [] = Unit
IsBytes (b ∷ bs) = (b < 256) × IsBytes bs

get-IsBytes : (bs : Bitmap) (i v : ℕ) → IsBytes bs → get_elem? bs i ≡ some v → v < 256
get-IsBytes [] i v h e = cc
get-IsBytes (b ∷ bs) zero v h e = ground (arith, h.0)
get-IsBytes (b ∷ bs) (suc i) v h e = get-IsBytes bs i v h.1 e

set-IsBytes : (bs : Bitmap) (i v : ℕ) → IsBytes bs → v < 256 → IsBytes (set bs i v)
set-IsBytes [] i v h p = tt
set-IsBytes (b ∷ bs) zero v h p = (p, h.1)
set-IsBytes (b ∷ bs) (suc i) v h p = (h.0, set-IsBytes bs i v h.1 p)

get-in : {A : Type 0} (xs : List A) (i : ℕ) (v : A) → get_elem? xs i ≡ some v → i < length xs
get-in [] i v e = cc
get-in (x ∷ xs) zero v e = omega arith
get-in (x ∷ xs) (suc i) v e = omega (arith, get-in xs i v e)

-- What setting an index does.
pub record SetAt (bitmap : Bitmap) (idx : ℕ) (bitmap' : Bitmap) : Type 0 where
  pub bytes : IsBytes bitmap'
  pub size : length bitmap' ≡ length bitmap
  pub digit :
      (j : ℕ) → bitmap_is_set bitmap' j ≡ (if idx == j then some true else bitmap_is_set bitmap j)

is_set-some :
    (bs : Bitmap) (j v : ℕ)
    → get_elem? bs (j / 8) ≡ some v
    → bitmap_is_set bs j ≡ some (not (bit_and v (2 ^ (j % 8)) == 0))
unfolding bitmap_is_set
is_set-some bs j v e = rw (e, bitmap_is_set)

is_set-same :
    (bs bs' : Bitmap) (j : ℕ)
    → get_elem? bs (j / 8) ≡ get_elem? bs' (j / 8)
    → bitmap_is_set bs j ≡ bitmap_is_set bs' j
unfolding bitmap_is_set
is_set-same bs bs' j e = rw (e, bitmap_is_set)

set_digit :
    (bs : Bitmap) (i j v : ℕ)
    → IsBytes bs
    → get_elem? bs (i / 8) ≡ some v
    → bitmap_is_set (set bs (i / 8) (bit_or v (2 ^ (i % 8)))) j
      ≡ (if i == j then some true else bitmap_is_set bs j)
set_digit bs i j v h e =
    let byte = bit_or v (2 ^ (i % 8)) in
    elim (Bool-cases (i / 8 == j / 8)) [
      | inl same ↦
          (let at : i / 8 ≡ j / 8 = (==_iff (i / 8) (j / 8)).0 same in
            let here : get_elem? (set bs (i / 8) byte) (j / 8) ≡ some byte =
              rw (← at) (get_elem?-set_self bs (i / 8) byte (get-in bs (i / 8) v e)) in
            let before : get_elem? bs (j / 8) ≡ some v = rw (← at) e in
            let digit =
              byte_digit v (i % 8) (get-IsBytes bs (i / 8) v h e) (omega arith) (j % 8)
                (omega arith) in
            rw (is_set-some (set bs (i / 8) byte) j byte here, is_set-some bs j v before, digit)
              (ground (arith, at)))
      | inr apart ↦
          (let other : get_elem? (set bs (i / 8) byte) (j / 8) ≡ get_elem? bs (j / 8) =
              get_elem?-set_ne bs (i / 8) (j / 8) byte (λ p. ground (arith, apart)) in
            let differ : (i == j) ≡ false = ground (arith, apart) in
            rw (is_set-same (set bs (i / 8) byte) bs j other, differ))
    ]

-- Setting a bit of a bitmap of bytes that has the index sets this index and no other, keeps the length,
-- and keeps every entry a byte.
pub bitmap_set-SetAt :
    (bs : Bitmap) (i : ℕ) (bs' : Bitmap) → IsBytes bs → bitmap_set bs i ≡ some bs' → SetAt bs i bs'
unfolding bitmap_set
bitmap_set-SetAt bs i bs' h e = elim (Option-cases (get_elem? bs (i / 8))) [
  | inl missing ↦ absurd (ground arith)
  | inr (v, found) ↦
      (let result : set bs (i / 8) (bit_or v (2 ^ (i % 8))) ≡ bs' = ground arith in
        rw (← result) (record {
          bytes =
              set-IsBytes bs (i / 8) _ h
                (byte-lt v (i % 8) (get-IsBytes bs (i / 8) v h found) (omega arith));
          size = length-set bs (i / 8) _;
          digit = λ j. set_digit bs i j v h found;
        }))
]

-- An index that can be read is in range.
pub is_set-lt : (bs : Bitmap) (i : ℕ) (b : Bool) → bitmap_is_set bs i ≡ some b → i < 8 * length bs
unfolding bitmap_is_set
is_set-lt bs i b e = elim (Option-cases (get_elem? bs (i / 8))) [
  | inl missing ↦ absurd (ground arith)
  | inr (v, found) ↦ omega (arith, get-in bs (i / 8) v found)
]
