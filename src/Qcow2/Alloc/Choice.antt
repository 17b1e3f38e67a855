-- ===== src/Qcow2/Alloc/Choice.antt =====
-- Every way in which qcow2-to-stdout.py chooses clusters keeps the bitmaps and the counters
-- consistent.
use xen_api.Base.{
  ℕ, zero, suc, ◌+◌, ◌-◌, ◌*◌, ◌/◌, ◌%◌, ◌^◌, ◌≡◌, refl, Bool, true, false, Option, none, some, [],
  ◌∷◌, leb, if◌then◌else◌, replicate, get_elem?, arith, Option-cases, inl, inr,
}
use xen_api.Base.Bits.{zero_and}
use xen_api.Base.Bytes.{Bytes, bytes_eq}
use xen_api.Base.Exec.{Result, ok, err, pure, raise, continue, ◌>>=◌}
use xen_api.Qcow2.Bitmap.{bitmap_is_set, test, set_from, align_up}
use xen_api.Qcow2.Bitmap.Laws.{IsBytes}
use xen_api.Qcow2.Bitmap.Count.{count_from}
use xen_api.Qcow2.Interval.{Intervals, contains, make_interval}
use xen_api.Qcow2.Alloc.{
  Failure, Alloc, Allocating, allocate_cluster, pad, check_cluster_allocate, allocate_range,
  allocate_intervals, compare_range, compare_intervals, scan, Job, allocate_map_diff, allocate_map,
  allocate_scan, diff_headers_missing,
}
use xen_api.Qcow2.Layout.{Sizes, sizes, start_alloc, choose}
use xen_api.Qcow2.Alloc.Invariant.{IsConsistent, allocate_cluster-IsConsistent}

abbrev pub Good : {A : Type 0} → ℕ → Result Failure A × Alloc → Type 0
Good entries (ok _, a) = IsConsistent entries a
Good entries (err _, _) = Unit

record Keeps {A : Type 0} (entries : ℕ) (m : Allocating A) : Type 0 where
  at : (a : Alloc) → IsConsistent entries a → Good entries (m a)

module _ {A : Type 0} (entries : ℕ) where
  pure-Keeps : (x : A) → Keeps entries (pure x)
  pure-Keeps x = record { at = λ a h. h }

  raise-Keeps : (e : Failure) → Keeps entries (raise {A = A} e)
  raise-Keeps e = record { at = λ a h. tt }

  if-Keeps :
      (b : Bool) (m k : Allocating A)
      → Keeps entries m
      → Keeps entries k
      → Keeps entries (if b then m else k)
  if-Keeps true m k p q = p
  if-Keeps false m k p q = q

module _ {A B : Type 0} (entries : ℕ) where
  go_on :
      (f : A → Allocating B) (r : Result Failure A × Alloc)
      → Good entries r
      → ((x : A) → Keeps entries (f x))
      → Good entries (continue f r.0 r.1)
  go_on f (ok x, a) g p = (p x).at a g
  go_on f (err e, a) g p = tt

  bind-Keeps :
      (m : Allocating A) (f : A → Allocating B)
      → Keeps entries m
      → ((x : A) → Keeps entries (f x))
      → Keeps entries (m >>= f)
  bind-Keeps m f p q = record { at = λ a h. go_on f (m a) (p.at a h) q }

allocate-Keeps : (entries idx : ℕ) → Keeps entries (allocate_cluster entries idx)
allocate-Keeps entries idx = record {
  at = λ a h. good (allocate_cluster entries idx a) (allocate_cluster-IsConsistent entries idx a h);
}
  where
    good :
        (r : Result Failure (Unit {0}) × Alloc)
        → (r.0 ≡ ok tt → IsConsistent entries r.1)
        → Good entries r
    good (ok tt, a) h = h refl
    good (err e, a) h = tt

check-Keeps :
    (size idx : ℕ) (cluster other : Bytes)
    → Keeps (size / 8) (check_cluster_allocate size idx cluster other)
unfolding check_cluster_allocate
check-Keeps size idx cluster other =
    if-Keeps (size / 8) (bytes_eq (pad size cluster) other) (pure tt)
      (allocate_cluster (size / 8) idx) (pure-Keeps (size / 8) tt) (allocate-Keeps (size / 8) idx)

module _ (size : ℕ) where
  range-Keeps : (n left : ℕ) → Keeps (size / 8) (allocate_range size n left)
  unfolding allocate_range
  range-Keeps zero left = pure-Keeps (size / 8) tt
  range-Keeps (suc n) left =
      bind-Keeps (size / 8) (allocate_cluster (size / 8) left)
        (λ _. allocate_range size n (left + 1)) (allocate-Keeps (size / 8) left)
        (λ _. range-Keeps n (left + 1))

  intervals-Keeps : (ivs : Intervals) → Keeps (size / 8) (allocate_intervals size ivs)
  unfolding allocate_intervals
  intervals-Keeps [] = pure-Keeps (size / 8) tt
  intervals-Keeps ((left, right) ∷ ivs) =
      bind-Keeps (size / 8) (allocate_range size (right + 1 - left) left)
        (λ _. allocate_intervals size ivs) (range-Keeps (right + 1 - left) left)
        (λ _. intervals-Keeps ivs)

  scan-Keeps :
      (input : Bytes) (other : ℕ → Bytes) (n idx : ℕ)
      → Keeps (size / 8) (scan size input other n idx)
  unfolding scan
  scan-Keeps input other zero idx = pure-Keeps (size / 8) tt
  scan-Keeps input other (suc n) idx =
      bind-Keeps (size / 8) (check_cluster_allocate size idx _ _)
        (λ _. scan size input other n (idx + 1)) (check-Keeps size idx _ _)
        (λ _. scan-Keeps input other n (idx + 1))

  compare_range-Keeps :
      (input other : Bytes) (last n cluster : ℕ) (ivs : Intervals)
      → Keeps (size / 8) (compare_range size input other last n cluster ivs)
  unfolding compare_range
  compare_range-Keeps input other last zero cluster ivs = pure-Keeps (size / 8) ivs
  compare_range-Keeps input other last (suc n) cluster ivs =
      let next = λ (js : Intervals). compare_range-Keeps input other last n (cluster + 1) js in
      if-Keeps (size / 8) (leb last cluster) _ _
        (bind-Keeps (size / 8) (allocate_cluster (size / 8) cluster)
          (λ _. compare_range size input other last n (cluster + 1) ivs)
          (allocate-Keeps (size / 8) cluster) (λ _. next ivs))
        (if-Keeps (size / 8) (contains ivs cluster).0 _ _
          (bind-Keeps (size / 8) (check_cluster_allocate size cluster _ _)
            (λ _. compare_range size input other last n (cluster + 1) (contains ivs cluster).1)
            (check-Keeps size cluster _ _) (λ _. next (contains ivs cluster).1))
          (bind-Keeps (size / 8) (allocate_cluster (size / 8) cluster)
            (λ _. compare_range size input other last n (cluster + 1) (contains ivs cluster).1)
            (allocate-Keeps (size / 8) cluster) (λ _. next (contains ivs cluster).1)))

  compare_intervals-Keeps :
      (input other : Bytes) (last : ℕ) (ivs js : Intervals)
      → Keeps (size / 8) (compare_intervals size input other last ivs js)
  unfolding compare_intervals
  compare_intervals-Keeps input other last [] js = pure-Keeps (size / 8) js
  compare_intervals-Keeps input other last ((left, right) ∷ rest) js =
      bind-Keeps (size / 8) (compare_range size input other last (right + 1 - left) left js)
        (λ js'. compare_intervals size input other last rest js')
        (compare_range-Keeps input other last (right + 1 - left) left js)
        (λ js'. compare_intervals-Keeps input other last rest js')

map_diff-Keeps :
    (size : ℕ) (input other : Bytes) (ivs : Intervals) (v : Option ℕ) (nonzero : Option Intervals)
    → Keeps (size / 8) (allocate_map_diff size input ivs other v nonzero)
unfolding allocate_map_diff
map_diff-Keeps size input other ivs (some v) (some nonzero) =
    bind-Keeps (size / 8)
      (compare_intervals size input other (align_up v size / size) ivs (make_interval nonzero))
      (allocate_intervals size)
      (compare_intervals-Keeps size input other _ ivs (make_interval nonzero))
      (intervals-Keeps size)
map_diff-Keeps size input other ivs (some v) none = raise-Keeps (size / 8) diff_headers_missing
map_diff-Keeps size input other ivs none nonzero = raise-Keeps (size / 8) diff_headers_missing

module _ (j : Job) where
  map-Keeps : (ivs : Intervals) → Keeps (j.cluster_size / 8) (allocate_map j ivs)
  unfolding allocate_map
  map-Keeps ivs = elim (Option-cases j.diff_file) [
    | inl alone ↦ rw alone (intervals-Keeps j.cluster_size ivs)
    | inr (other, given) ↦ rw given (
        map_diff-Keeps j.cluster_size j.input other ivs j.diff_virtual_size j.diff_nonzero_clusters)
  ]

  scanning-Keeps : (device : ℕ) → Keeps (j.cluster_size / 8) (allocate_scan j device)
  unfolding allocate_scan
  scanning-Keeps device = elim (Option-cases j.diff_file) [
    | inl alone ↦ rw alone (scan-Keeps j.cluster_size j.input _ _ 0)
    | inr (other, given) ↦ rw given (
        bind-Keeps (j.cluster_size / 8) (scan j.cluster_size j.input _ _ 0)
          (λ _. scan j.cluster_size j.input _ _ _) (scan-Keeps j.cluster_size j.input _ _ 0)
          (λ _. scan-Keeps j.cluster_size j.input _ _ _))
  ]

zeroes-IsBytes : (n : ℕ) → IsBytes (replicate n 0)
zeroes-IsBytes zero = tt
zeroes-IsBytes (suc n) = (omega arith, zeroes-IsBytes n)

get-zeroes : (n i v : ℕ) → get_elem? (replicate n 0) i ≡ some v → v ≡ 0
get-zeroes zero i v e = cc
get-zeroes (suc n) zero v e = ground arith
get-zeroes (suc n) (suc i) v e = get-zeroes n i v e

zeroes_clear : (n i : ℕ) → test (bitmap_is_set (replicate n 0) i) ≡ false
unfolding bitmap_is_set
zeroes_clear n i =
    let byte : Option ℕ = get_elem? (replicate n 0) (i / 8) in
    elim (Option-cases byte) [
      | inl missing ↦ rw (missing, bitmap_is_set)
      | inr (v, found) ↦
          rw (found, bitmap_is_set)
            (rw (get-zeroes n (i / 8) v found) (ground (arith, zero_and (2 ^ (i % 8)))))
    ]

zeroes_count : (n idx k : ℕ) → count_from (replicate n 0) idx k ≡ 0
unfolding set_from
zeroes_count n idx zero = refl
zeroes_count n idx (suc k) = ground (arith, zeroes_clear n idx, zeroes_count n (idx + 1) k)

start-IsConsistent : (j : Job) (z : Sizes) → IsConsistent (j.cluster_size / 8) (start_alloc j z)
unfolding start_alloc
start-IsConsistent j z = record {
  bytes1 = zeroes-IsBytes (z.allocated_l1_tables * (j.cluster_size / 8) / 8);
  bytes2 = zeroes-IsBytes (z.l1_entries * (j.cluster_size / 8) / 8);
  tables = omega (arith, zeroes_count (z.allocated_l1_tables * (j.cluster_size / 8) / 8) 0 _);
  counted = omega (arith, zeroes_count (z.l1_entries * (j.cluster_size / 8) / 8) 0 _);
  reached = λ idx e. cc (e, zeroes_clear (z.l1_entries * (j.cluster_size / 8) / 8) idx);
}

choice-Good :
    (j : Job)
    → j.data_file_raw ≡ false
    → Good (j.cluster_size / 8) (choose j (sizes j) (start_alloc j (sizes j)))
unfolding choose sizes start_alloc
choice-Good j plain = rw plain (elim (Option-cases j.nonzero_clusters) [
  | inl unmapped ↦ rw unmapped (
      (scanning-Keeps j (sizes j).block_device_size).at (start_alloc j (sizes j))
        (start-IsConsistent j (sizes j)))
  | inr (ivs, mapped) ↦
      rw mapped ((map-Keeps j ivs).at (start_alloc j (sizes j)) (start-IsConsistent j (sizes j)))
])

-- A choice of clusters that succeeds, by scanning or from a map, with a file to compare with or without,
-- but not for a raw data file, leaves bitmaps and counters consistent: the count of L2 tables is that of
-- the set L1 entries, every set L2 entry has its L1 entry, and no set L2 entry is uncounted.
pub choose-IsConsistent :
    (j : Job)
    → j.data_file_raw ≡ false
    → (choose j (sizes j) (start_alloc j (sizes j))).0 ≡ ok tt
    → IsConsistent (j.cluster_size / 8) (choose j (sizes j) (start_alloc j (sizes j))).1
choose-IsConsistent j plain e =
    succeeds (choose j (sizes j) (start_alloc j (sizes j))) e (choice-Good j plain)
  where
    succeeds :
        (r : Result Failure (Unit {0}) × Alloc)
        → r.0 ≡ ok tt
        → Good (j.cluster_size / 8) r
        → IsConsistent (j.cluster_size / 8) r.1
    succeeds (ok tt, a) e g = g
    succeeds (err f, a) e g = absurd (ground arith)
