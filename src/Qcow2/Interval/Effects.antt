-- ===== src/Qcow2/Interval/Effects.antt =====
-- What a membership test of `Interval` in qcow2-to-stdout.py leaves of the list.
use xen_api.Base.{
  ℕ, zero, suc, ◌+◌, ◌-◌, ◌≤◌, ◌<◌, ◌≡◌, ◌≢◌, ◌⊎◌, inl, inr, refl, true, false, none, some, [], ◌∷◌,
  leb, ◌==◌, length, get_elem?, set, arith, Option-cases, Bool-cases,
}
use native.Mathlib.Numerals.{add-one}
use xen_api.Qcow2.Interval.{
  Intervals, delete_at, insert_at, search_interval, take_out, first_left, last_right, contains,
}
use xen_api.Qcow2.Interval.Search.{
  around, covered, Above, IsSorted, get-Above, get-IsSorted, get-ordered, index_of, get-lt,
  search_sound, search_complete,
}

module _ (d : ℕ) where
  covered-set :
      (ivs : Intervals) (i : ℕ) (old new : ℕ × ℕ)
      → get_elem? ivs i ≡ some old
      → around new d ≡ around old d
      → covered (set ivs i new) d ≡ covered ivs d
  covered-set [] i old new e h = refl
  covered-set (iv ∷ ivs) zero old new e h = ground (arith, h)
  covered-set (iv ∷ ivs) (suc i) old new e h = ground (arith, covered-set ivs i old new e h)

  covered-delete :
      (ivs : Intervals) (i : ℕ) (old : ℕ × ℕ)
      → get_elem? ivs i ≡ some old
      → around old d ≡ false
      → covered (delete_at ivs i) d ≡ covered ivs d
  unfolding delete_at
  covered-delete [] i old e h = refl
  covered-delete (iv ∷ ivs) zero old e h = ground (arith, h)
  covered-delete (iv ∷ ivs) (suc i) old e h = ground (arith, covered-delete ivs i old e h)

  covered-split :
      (ivs : Intervals) (i l c r : ℕ)
      → get_elem? ivs i ≡ some (l, r)
      → l ≤ c
      → c ≤ r
      → covered (set (insert_at ivs (suc i) (c + 1, r)) i (l, c)) d ≡ covered ivs d
  unfolding insert_at
  covered-split [] i l c r e p q = cc
  covered-split (iv ∷ ivs) zero l c r e p q = ground arith
  covered-split (iv ∷ ivs) (suc i) l c r e p q = ground (arith, covered-split ivs i l c r e p q)

not-Above : (c b : ℕ) (ivs : Intervals) → Above b ivs → c ≤ b → covered ivs c ≡ false
not-Above c b [] h p = refl
not-Above c b (iv ∷ ivs) h p = ground (arith, not-Above c b ivs h.1 p, h.0)

module _ (c l r : ℕ) (p : l ≤ c) (q : c ≤ r) where
  covered-set_hit :
      (ivs : Intervals) (i : ℕ) (new : ℕ × ℕ)
      → IsSorted ivs
      → get_elem? ivs i ≡ some (l, r)
      → around new c ≡ false
      → covered (set ivs i new) c ≡ false
  covered-set_hit [] i new s e h = refl
  covered-set_hit (iv ∷ ivs) zero new s e h = ground (arith, not-Above c iv.1 ivs s.1, h)
  covered-set_hit (iv ∷ ivs) (suc i) new s e h =
      ground (arith, covered-set_hit ivs i new s.2 e h, get-Above iv.1 i l r ivs s.1 e)

  covered-delete_hit :
      (ivs : Intervals) (i : ℕ)
      → IsSorted ivs
      → get_elem? ivs i ≡ some (l, r)
      → covered (delete_at ivs i) c ≡ false
  unfolding delete_at
  covered-delete_hit [] i s e = refl
  covered-delete_hit (iv ∷ ivs) zero s e = ground (arith, not-Above c iv.1 ivs s.1)
  covered-delete_hit (iv ∷ ivs) (suc i) s e =
      ground (arith, covered-delete_hit ivs i s.2 e, get-Above iv.1 i l r ivs s.1 e)

-- The two quick tests before the search are right.
above_first : (ivs : Intervals) (c : ℕ) → IsSorted ivs → covered ivs c ≡ true → first_left ivs ≤ c
above_first [] c s h = absurd (cc)
above_first (iv ∷ ivs) c s h = elim (Bool-cases (leb iv.0 c)) [
  | inl yes' ↦ ground arith
  | inr no' ↦ ground (arith, not-Above c iv.1 ivs s.1, s.0)
]

last_ge : (iv : ℕ × ℕ) (ivs : Intervals) → IsSorted (iv ∷ ivs) → iv.1 ≤ last_right (iv ∷ ivs)
last_ge iv [] s = omega arith
last_ge iv (j ∷ ivs) s = omega (arith, last_ge j ivs s.2, s.1.0, s.2.0)

below_last : (ivs : Intervals) (c : ℕ) → IsSorted ivs → covered ivs c ≡ true → c ≤ last_right ivs
below_last [] c s h = absurd (cc)
below_last (iv ∷ []) c s h = ground arith
below_last (iv ∷ j ∷ ivs) c s h = elim (Bool-cases (around iv c)) [
  | inl here ↦ ground (arith, here, last_ge j ivs s.2, s.1.0, s.2.0)
  | inr there ↦ ground (arith, there, below_last (j ∷ ivs) c s.2)
]

hit_covered :
    (ivs : Intervals) (i l r c : ℕ)
    → get_elem? ivs i ≡ some (l, r)
    → l ≤ c
    → c ≤ r
    → covered ivs c ≡ true
hit_covered [] i l r c e p q = cc
hit_covered (iv ∷ ivs) zero l r c e p q = ground arith
hit_covered (iv ∷ ivs) (suc i) l r c e p q = ground (arith, hit_covered ivs i l r c e p q)

take_out_others :
    (ivs : Intervals) (c d m l r : ℕ)
    → get_elem? ivs m ≡ some (l, r)
    → l ≤ c
    → c ≤ r
    → d ≢ c
    → covered (take_out ivs c (m, l, r)) d ≡ covered ivs d
unfolding take_out
take_out_others ivs c d m l r e p q ne = ground (
  arith,
  e,
  add-one m,
  covered-delete d ivs m (l, r) e,
  covered-set d ivs m (l, r) (l + 1, r) e,
  covered-set d ivs m (l, r) (l, r - 1) e,
  covered-split d ivs m l c r e p q,
)

take_out_end :
    (ivs : Intervals) (c m l r : ℕ)
    → IsSorted ivs
    → get_elem? ivs m ≡ some (l, r)
    → l ≤ r
    → (c ≡ l) ⊎ (c ≡ r)
    → covered (take_out ivs c (m, l, r)) c ≡ false
unfolding take_out
take_out_end ivs c m l r s e p h = ground (
  arith,
  covered-delete_hit c l r (omega arith) (omega arith) ivs m s e,
  covered-set_hit c l r (omega arith) (omega arith) ivs m (l + 1, r) s e,
  covered-set_hit c l r (omega arith) (omega arith) ivs m (l, r - 1) s e,
)

take_out_inside :
    (ivs : Intervals) (c m l r : ℕ)
    → get_elem? ivs m ≡ some (l, r)
    → l < c
    → c < r
    → covered (take_out ivs c (m, l, r)) c ≡ true
unfolding take_out
take_out_inside ivs c m l r e p q = ground (
  arith,
  add-one m,
  covered-split c ivs m l c r e (omega arith) (omega arith),
  hit_covered ivs m l r c e (omega arith) (omega arith),
)

-- Two intervals around one cluster are one.
same_interval :
    (ivs : Intervals) (c i l r m x y : ℕ)
    → IsSorted ivs
    → get_elem? ivs i ≡ some (l, r)
    → get_elem? ivs m ≡ some (x, y)
    → l ≤ c
    → c ≤ r
    → x ≤ c
    → c ≤ y
    → (x ≡ l) × (y ≡ r)
same_interval ivs c i l r m x y s e f a b a' b' =
    ground (arith, get-ordered i m l r x y ivs s, get-ordered m i x y l r ivs s, e, f)

module _ (ivs : Intervals) (c : ℕ) (s : IsSorted ivs) where
  -- The search over the whole list, hit or not.
  hit_or_not :
      ((covered ivs c ≡ false) × (search_interval (length ivs) ivs c 0 (length ivs) ≡ none))
      ⊎ ((m : ℕ) × (l : ℕ) × (r : ℕ) × (search_interval (length ivs) ivs c 0 (length ivs)
            ≡ some (m, l, r))
          × (get_elem? ivs m ≡ some (l, r))
          × (l ≤ c)
          × (c ≤ r))
  hit_or_not = elim (Option-cases (search_interval (length ivs) ivs c 0 (length ivs))) [
    | inl missed ↦ elim (Bool-cases (covered ivs c)) [
      | inl inside ↦
          (let (i, l, r, e, p, q) = index_of ivs c inside in
            absurd (
              search_complete ivs c s i l r e p q (length ivs) 0 (length ivs) (omega arith)
                (omega arith) (omega arith) (get-lt ivs i l r e) missed))
      | inr outside ↦ inl (outside, missed)
    ]
    | inr ((m, l, r), found) ↦
        (let (e, p, q) = search_sound ivs c (length ivs) 0 (length ivs) (m, l, r) found in
          inr (m, l, r, found, e, p, q))
  ]

  -- What the test does, by whether and where it hits.
  contains_miss : covered ivs c ≡ false → contains ivs c ≡ (false, ivs)
  unfolding contains
  contains_miss h = elim hit_or_not [
    | inl (_, missed) ↦ ground (arith, missed)
    | inr (m, l, r, found, e, p, q) ↦ absurd (ground (arith, h, hit_covered ivs m l r c e p q))
  ]

  contains_hit :
      (m l r : ℕ)
      → search_interval (length ivs) ivs c 0 (length ivs) ≡ some (m, l, r)
      → covered ivs c ≡ true
      → contains ivs c ≡ (true, take_out ivs c (m, l, r))
  unfolding contains
  contains_hit m l r found h =
      ground (arith, found, above_first ivs c s h, below_last ivs c s h, not_empty ivs h)
    where
      not_empty : (ivs : Intervals) → covered ivs c ≡ true → (length ivs == 0) ≡ false
      not_empty [] h = cc
      not_empty (iv ∷ ivs) h = ground arith

  -- On a sorted list of intervals, `cluster in intervals` is true exactly for a covered cluster.
  pub contains-covered : (contains ivs c).0 ≡ covered ivs c
  contains-covered = elim hit_or_not [
    | inl (outside, missed) ↦ cc (contains_miss outside)
    | inr (m, l, r, found, e, p, q) ↦
        (let inside = hit_covered ivs m l r c e p q in cc (contains_hit m l r found inside))
  ]

  -- On a sorted list of intervals, a membership test adds and removes no cluster but the one asked for.
  pub contains_others : (d : ℕ) → d ≢ c → covered (contains ivs c).1 d ≡ covered ivs d
  contains_others d ne = elim hit_or_not [
    | inl (outside, missed) ↦ rw (contains_miss outside)
    | inr (m, l, r, found, e, p, q) ↦
        rw (contains_hit m l r found (hit_covered ivs m l r c e p q))
          (take_out_others ivs c d m l r e p q ne)
  ]

  -- On a sorted list of intervals, a cluster at an end of its interval is removed by the test.
  pub contains_end :
      (i l r : ℕ)
      → get_elem? ivs i ≡ some (l, r)
      → (c ≡ l) ⊎ (c ≡ r)
      → covered (contains ivs c).1 c ≡ false
  contains_end i l r e h = elim hit_or_not [
    | inl (outside, missed) ↦
        absurd (ground (arith, outside, hit_covered ivs i l r c e, get-IsSorted i l r ivs s e))
    | inr (m, x, y, found, f, p, q) ↦
        (let le = get-IsSorted i l r ivs s e in
          let (a, b) = same_interval ivs c i l r m x y s e f (omega arith) (omega arith) p q in
          rw (contains_hit m x y found (hit_covered ivs m x y c f p q))
            (take_out_end ivs c m x y s f (omega arith) (rw (a, b) h)))
  ]

  -- A cluster inside its interval is found, and stays in the list: the left part of the split
  -- interval ends at the cluster itself.
  pub contains_inside :
      (i l r : ℕ)
      → get_elem? ivs i ≡ some (l, r)
      → l < c
      → c < r
      → ((contains ivs c).0 ≡ true) × (covered (contains ivs c).1 c ≡ true)
  contains_inside i l r e p q = elim hit_or_not [
    | inl (outside, missed) ↦ absurd (ground (arith, outside, hit_covered ivs i l r c e))
    | inr (m, x, y, found, f, p', q') ↦
        (let (a, b) = same_interval ivs c i l r m x y s e f (omega arith) (omega arith) p' q' in
          rw (contains_hit m x y found (hit_covered ivs m x y c f p' q'))
            (refl, take_out_inside ivs c m x y f (omega arith) (omega arith)))
  ]
