-- ===== src/Qcow2/Alloc.antt =====
-- python3/libexec/qcow2-to-stdout.py: the first half of `write_qcow2_content`, which decides what
-- clusters the output has.
pub mod Invariant
pub mod Choice
use xen_api.Base.{
  ℕ, zero, suc, ◌+◌, ◌-◌, ◌*◌, ◌/◌, Bool, true, false, not, Option, none, some, List, [], ◌∷◌, ◌++◌,
  ltb, leb, ◌==◌, if◌then◌else◌, length, take, drop, replicate,
}
use xen_api.Base.Bytes.{Bytes, bytes_eq}
use xen_api.Base.Exec.{Exec, pure, raise, gets, or_raise, modify, ◌>>=◌, ◌>>◌}
use xen_api.Qcow2.Bitmap.{Bitmap, bitmap_set, bitmap_is_set, align_up}
use xen_api.Qcow2.Interval.{Intervals, make_interval, contains}

pub data Failure : Type 0 where
  too_large diff_headers_missing index_error : Failure

-- The variables that the nested functions share.
pub record Alloc : Type 0 where
  pub l1_bitmap : Bitmap
  pub l2_bitmap : Bitmap
  pub allocated_l2_tables : ℕ
  pub allocated_data_clusters : ℕ

abbrev pub Allocating : Type 0 → Type 0
Allocating A = Exec Failure Alloc A

-- The L1 entry of a cluster, and its L2 table, once.
unfoldable pub allocate_l2_table : ℕ → Allocating (Unit {0})
allocate_l2_table l1_idx = do
  l1 ← gets (λ s. s.l1_bitmap)
  present ← or_raise (bitmap_is_set l1 l1_idx) index_error
  if present then pure tt else do
    l1' ← or_raise (bitmap_set l1 l1_idx) index_error
    modify (λ s. record s { l1_bitmap = l1'; allocated_l2_tables = s.allocated_l2_tables + 1 })

unfoldable pub allocate_cluster : ℕ → ℕ → Allocating (Unit {0})
allocate_cluster l2_entries_per_table idx = do
  l2 ← gets (λ s. s.l2_bitmap)
  l2' ← or_raise (bitmap_set l2 idx) index_error
  modify
      (λ s. record s { l2_bitmap = l2'; allocated_data_clusters = s.allocated_data_clusters + 1 })
  allocate_l2_table (idx / l2_entries_per_table)

-- os.pread
unfoldable pub pread : Bytes → ℕ → ℕ → Bytes
pread file size offset = take size (drop offset file)

-- `cluster += bytes(cluster_size - len(cluster))` where it is shorter
unfoldable pub pad : ℕ → Bytes → Bytes
pad cluster_size cluster = cluster ++ replicate (cluster_size - length cluster) 0

unfoldable pub check_cluster_allocate : ℕ → ℕ → Bytes → Bytes → Allocating (Unit {0})
check_cluster_allocate cluster_size idx cluster cluster_to_compare_with =
    if bytes_eq (pad cluster_size cluster) cluster_to_compare_with
    then pure tt
    else allocate_cluster (cluster_size / 8) idx

module _ (cluster_size : ℕ) where
  -- for cluster in range(left, left + n)
  unfoldable pub allocate_range : ℕ → ℕ → Allocating (Unit {0})
  allocate_range zero left = pure tt
  allocate_range (suc n) left = do
    allocate_cluster (cluster_size / 8) left
    allocate_range n (left + 1)

  unfoldable pub allocate_intervals : Intervals → Allocating (Unit {0})
  allocate_intervals [] = pure tt
  allocate_intervals ((left, right) ∷ ivs) = do
    allocate_range (right + 1 - left) left
    allocate_intervals ivs

  -- The clusters of one interval of the input, against the list of the intervals of the other file.
  unfoldable pub compare_range : Bytes → Bytes → ℕ → ℕ → ℕ → Intervals → Allocating Intervals
  compare_range input other last_diff_cluster zero cluster ivs = pure ivs
  compare_range input other last_diff_cluster (suc n) cluster ivs =
      let beyond = (do
        allocate_cluster (cluster_size / 8) cluster
        compare_range input other last_diff_cluster n (cluster + 1) ivs) in
      let within =
        (let (found, ivs') = contains ivs cluster in
          if found
          then (do
            check_cluster_allocate cluster_size cluster
                (pread input cluster_size (cluster_size * cluster))
                (pread other cluster_size (cluster_size * cluster))
            compare_range input other last_diff_cluster n (cluster + 1) ivs')
          else (do
            allocate_cluster (cluster_size / 8) cluster
            compare_range input other last_diff_cluster n (cluster + 1) ivs')) in
      if leb last_diff_cluster cluster then beyond else within

  unfoldable pub compare_intervals :
      Bytes → Bytes → ℕ → Intervals → Intervals → Allocating Intervals
  compare_intervals input other last_diff_cluster [] ivs = pure ivs
  compare_intervals input other last_diff_cluster ((left, right) ∷ rest) ivs = do
    ivs' ← compare_range input other last_diff_cluster (right + 1 - left) left ivs
    compare_intervals input other last_diff_cluster rest ivs'

  -- for idx in range(idx, idx + n): compare with a cluster that `other` gives
  unfoldable pub scan : Bytes → (ℕ → Bytes) → ℕ → ℕ → Allocating (Unit {0})
  scan input other zero idx = pure tt
  scan input other (suc n) idx = do
    check_cluster_allocate cluster_size idx (pread input cluster_size (cluster_size * idx))
        (other idx)
    scan input other n (idx + 1)

-- for idx in range(n): bitmap_set(bitmap, idx)
unfoldable pub set_all : Bitmap → ℕ → ℕ → Option Bitmap
set_all bitmap idx zero = some bitmap
set_all bitmap idx (suc n) = elim (bitmap_set bitmap idx) [
  | none ↦ none
  | some bitmap' ↦ set_all bitmap' (idx + 1) n
]

-- The arguments of `write_qcow2_content`, the files by their contents.
pub record Job : Type 0 where
  pub input : Bytes
  pub cluster_size : ℕ
  pub refcount_bits : ℕ
  pub data_file_name : Option (List ℕ)
  pub data_file_raw : Bool
  pub diff_file : Option Bytes
  pub virtual_size : Option ℕ
  pub nonzero_clusters : Option Intervals
  pub diff_virtual_size : Option ℕ
  pub diff_nonzero_clusters : Option Intervals

-- `nonzero_clusters is not None` and a diff file
unfoldable pub allocate_map_diff :
    ℕ → Bytes → Intervals → Bytes → Option ℕ → Option Intervals → Allocating (Unit {0})
allocate_map_diff cluster_size input ivs other (some virtual) (some nonzero) = do
  left ←
      compare_intervals cluster_size input other (align_up virtual cluster_size / cluster_size) ivs
        (make_interval nonzero)
  allocate_intervals cluster_size left
allocate_map_diff cluster_size input ivs other _ _ = raise diff_headers_missing

unfoldable pub allocate_map : Job → Intervals → Allocating (Unit {0})
allocate_map j ivs = elim j.diff_file [
  | none ↦ allocate_intervals j.cluster_size ivs
  | some other ↦
      allocate_map_diff j.cluster_size j.input ivs other j.diff_virtual_size j.diff_nonzero_clusters
]

unfoldable pub allocate_scan : Job → ℕ → Allocating (Unit {0})
allocate_scan j block_device_size =
    let last_cluster = align_up block_device_size j.cluster_size / j.cluster_size in
    let zero_cluster = λ (idx : ℕ). replicate j.cluster_size 0 in
    elim j.diff_file [
      | none ↦ scan j.cluster_size j.input zero_cluster last_cluster 0
      | some other ↦
          (let last_diff_cluster = align_up (length other) j.cluster_size / j.cluster_size in
            do
              scan j.cluster_size j.input (λ idx. pread other j.cluster_size (j.cluster_size * idx))
                  last_diff_cluster 0
              scan j.cluster_size j.input zero_cluster (last_cluster - last_diff_cluster)
                  last_diff_cluster)
    ]

unfoldable pub allocate_raw : ℕ → ℕ → Allocating (Unit {0})
allocate_raw l1_entries total_data_clusters = do
  l1 ← gets (λ s. s.l1_bitmap)
  l2 ← gets (λ s. s.l2_bitmap)
  l1' ← or_raise (set_all l1 0 l1_entries) index_error
  l2' ← or_raise (set_all l2 0 total_data_clusters) index_error
  modify (λ s. record s { allocated_l2_tables = l1_entries; l1_bitmap = l1'; l2_bitmap = l2' })
