-- ===== src/Qcow2/Interval/Search.antt =====
-- The binary search of `Interval.__contains__` in qcow2-to-stdout.py finds an interval around the
-- cluster whenever there is one.
use xen_api.Base.{
  ℕ, zero, suc, ◌+◌, ◌-◌, ◌/◌, ◌≤◌, ◌<◌, ◌≡◌, ◌≢◌, inl, inr, refl, Bool, true, false, none, some,
  [], ◌∷◌, ◌&&◌, ◌||◌, leb, length, get_elem?, arith, Bool-cases,
}
use xen_api.Qcow2.Interval.{Intervals, search_interval}

abbrev pub around : ℕ × ℕ → ℕ → Bool
around (left, right) c = leb left c && leb c right

-- `c` lies in one of the intervals.
abbrev pub covered : Intervals → ℕ → Bool
covered [] c = false
covered (iv ∷ ivs) c = around iv c || covered ivs c

-- Every interval starts above `b`.
abbrev pub Above : ℕ → Intervals → Type 0
Above b [] = Unit
Above b (iv ∷ ivs) = (b < iv.0) × Above b ivs

-- Not empty, in order, and apart.
abbrev pub IsSorted : Intervals → Type 0
IsSorted [] = Unit
IsSorted (iv ∷ ivs) = (iv.0 ≤ iv.1) × Above iv.1 ivs × IsSorted ivs

pub get-Above :
    (b i l r : ℕ) (ivs : Intervals) → Above b ivs → get_elem? ivs i ≡ some (l, r) → b < l
get-Above b i l r [] h e = cc
get-Above b zero l r (iv ∷ ivs) h e = ground (arith, h.0)
get-Above b (suc i) l r (iv ∷ ivs) h e = get-Above b i l r ivs h.1 e

pub get-IsSorted :
    (i l r : ℕ) (ivs : Intervals) → IsSorted ivs → get_elem? ivs i ≡ some (l, r) → l ≤ r
get-IsSorted i l r [] h e = cc
get-IsSorted zero l r (iv ∷ ivs) h e = ground (arith, h.0)
get-IsSorted (suc i) l r (iv ∷ ivs) h e = get-IsSorted i l r ivs h.2 e

pub get-ordered :
    (i j l r l' r' : ℕ) (ivs : Intervals)
    → IsSorted ivs
    → i < j
    → get_elem? ivs i ≡ some (l, r)
    → get_elem? ivs j ≡ some (l', r')
    → r < l'
get-ordered i j l r l' r' [] h p e e' = cc
get-ordered zero zero l r l' r' (iv ∷ ivs) h p e e' = absurd (omega arith)
get-ordered zero (suc j) l r l' r' (iv ∷ ivs) h p e e' =
    ground (arith, get-Above iv.1 j l' r' ivs h.1 e')
get-ordered (suc i) zero l r l' r' (iv ∷ ivs) h p e e' = absurd (omega arith)
get-ordered (suc i) (suc j) l r l' r' (iv ∷ ivs) h p e e' =
    get-ordered i j l r l' r' ivs h.2 (omega arith) e e'

-- An index of the interval around a covered cluster.
pub index_of :
    (ivs : Intervals) (c : ℕ)
    → covered ivs c ≡ true
    → (i : ℕ) × (l : ℕ) × (r : ℕ) × (get_elem? ivs i ≡ some (l, r)) × (l ≤ c) × (c ≤ r)
index_of [] c h = absurd (cc)
index_of (iv ∷ ivs) c h = elim (Bool-cases (around iv c)) [
  | inl here ↦ (0, iv.0, iv.1, refl, ground arith, ground arith)
  | inr there ↦ (let (i, l, r, e, p, q) = index_of ivs c (ground arith) in (suc i, l, r, e, p, q))
]

pub get-some :
    (ivs : Intervals) (i : ℕ) → i < length ivs → (l : ℕ) × (r : ℕ) × (get_elem? ivs i ≡ some (l, r))
get-some [] i h = absurd (omega arith)
get-some (iv ∷ ivs) zero h = (iv.0, iv.1, refl)
get-some (iv ∷ ivs) (suc i) h = get-some ivs i (omega arith)

pub get-lt : (ivs : Intervals) (i l r : ℕ) → get_elem? ivs i ≡ some (l, r) → i < length ivs
get-lt [] i l r e = cc
get-lt (iv ∷ ivs) zero l r e = omega arith
get-lt (iv ∷ ivs) (suc i) l r e = omega (arith, get-lt ivs i l r e)

-- A hit is an interval of the list around the cluster.
abbrev pub IsHit : Intervals → ℕ → ℕ × ℕ × ℕ → Type 0
IsHit ivs c (mid, left, right) = (get_elem? ivs mid ≡ some (left, right)) × (left ≤ c) × (c ≤ right)

module _ (ivs : Intervals) (c : ℕ) where
  pub search_sound :
      (fuel l h : ℕ) (hit : ℕ × ℕ × ℕ) → search_interval fuel ivs c l h ≡ some hit → IsHit ivs c hit
  unfolding search_interval
  search_sound zero l h hit e = cc
  search_sound (suc fuel) l h (m, x, y) e = ground (
    arith,
    search_sound fuel l ((l + (h - 1)) / 2) (m, x, y),
    search_sound fuel ((l + (h - 1)) / 2 + 1) h (m, x, y),
  )

  module _ (sorted : IsSorted ivs) (i left right : ℕ) (e : get_elem? ivs i ≡ some (left, right))
      (p : left ≤ c) (q : c ≤ right) where
    -- The interval around the cluster stays between the bounds.
    pub search_complete :
        (fuel l h : ℕ)
        → h ≤ length ivs
        → h - l ≤ fuel
        → l ≤ i
        → i < h
        → search_interval fuel ivs c l h ≢ none
    unfolding search_interval
    search_complete zero l h a b d f = absurd (omega arith)
    search_complete (suc fuel) l h a b d f =
        let mid = (l + (h - 1)) / 2 in
        let (x, y, g) = get-some ivs mid (omega arith) in
        ground (
          arith,
          g,
          get-ordered mid i x y left right ivs sorted,
          get-ordered i mid left right x y ivs sorted,
          get-IsSorted mid x y ivs sorted,
          search_complete fuel l mid,
          search_complete fuel (mid + 1) h,
        )
