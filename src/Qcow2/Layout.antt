-- ===== src/Qcow2/Layout.antt =====
-- python3/libexec/qcow2-to-stdout.py: the sizes and offsets that `write_qcow2_content` computes.
pub mod Refcounts
use Prim.Native.Nat.{bit_or}
use xen_api.Base.{
  ℕ, zero, suc, ◌+◌, ◌-◌, ◌*◌, ◌/◌, ◌%◌, ◌^◌, Bool, true, false, Option, none, some, List, [], ◌∷◌,
  ltb, ◌==◌, if◌then◌else◌, length, replicate,
}
use xen_api.Base.Bytes.{Bytes}
use xen_api.Base.Exec.{Result, ok, err}
use xen_api.Qcow2.Bitmap.{ceil_div, align_up}
use xen_api.Qcow2.Alloc.{
  Failure, too_large, Alloc, Allocating, Job, allocate_map, allocate_scan, allocate_raw,
}

-- Disk size, number of data clusters and L1 entries.
pub record Sizes : Type 0 where
  pub block_device_size : ℕ
  pub disk_size : ℕ
  pub total_data_clusters : ℕ
  pub l1_entries : ℕ
  pub allocated_l1_tables : ℕ

abbrev device_size : Job → ℕ
device_size j = elim j.virtual_size [ none ↦ length j.input | some v ↦ v ]

abbrev rounded_size : Job → ℕ
rounded_size j = elim j.virtual_size [ none ↦ align_up (length j.input) 512 | some v ↦ v ]

unfoldable pub sizes : Job → Sizes
sizes j =
    let disk_size = rounded_size j in
    let total_data_clusters = ceil_div disk_size j.cluster_size in
    let l1_entries = ceil_div total_data_clusters (j.cluster_size / 8) in
    record {
      block_device_size = device_size j;
      disk_size = disk_size;
      total_data_clusters = total_data_clusters;
      l1_entries = l1_entries;
      allocated_l1_tables = ceil_div l1_entries (j.cluster_size / 8);
    }

-- The empty bitmaps.
unfoldable pub start_alloc : Job → Sizes → Alloc
start_alloc j z = record {
  l1_bitmap = replicate (z.allocated_l1_tables * (j.cluster_size / 8) / 8) 0;
  l2_bitmap = replicate (z.l1_entries * (j.cluster_size / 8) / 8) 0;
  allocated_l2_tables = 0;
  allocated_data_clusters = 0;
}

-- The three ways to choose clusters.
unfoldable pub choose : Job → Sizes → Allocating (Unit {0})
choose j z =
    if j.data_file_raw
    then allocate_raw z.l1_entries z.total_data_clusters
    else elim j.nonzero_clusters [
      | none ↦ allocate_scan j z.block_device_size
      | some ivs ↦ allocate_map j ivs
    ]

-- Allocated refcount blocks and tables: `while True`, until the number of blocks stays. `none` is
-- the end of the fuel.
unfoldable pub refcount_loop : ℕ → ℕ → ℕ → ℕ → ℕ → ℕ → Option (ℕ × ℕ)
refcount_loop zero total per_block per_table blocks tables = none
refcount_loop (suc fuel) total per_block per_table blocks tables =
    let new_blocks = ceil_div (total + tables + blocks) per_block in
    let again =
      refcount_loop fuel total per_block per_table new_blocks (ceil_div new_blocks per_table) in
    if ltb blocks new_blocks then again else some (blocks, tables)

unfoldable pub refcounts : ℕ → ℕ → ℕ → Option (ℕ × ℕ)
refcounts total per_block per_table =
    let blocks = ceil_div total per_block in
    refcount_loop (total + 1) total per_block per_table blocks (ceil_div blocks per_table)

-- Clusters of the output but for the refcount blocks and tables.
unfoldable pub content_clusters : Job → Sizes → Alloc → ℕ
content_clusters j z a =
    let meta = 1 + z.allocated_l1_tables + a.allocated_l2_tables in
    elim j.data_file_name [ none ↦ meta + a.allocated_data_clusters | some _ ↦ meta ]

-- The parts of the output, in clusters from its start.
pub record Layout : Type 0 where
  pub refcount_tables : ℕ
  pub refcount_blocks : ℕ
  pub total_clusters : ℕ
  pub refcount_table_start : ℕ
  pub refcount_block_start : ℕ
  pub l1_table_start : ℕ
  pub l2_table_start : ℕ
  pub data_start : ℕ

unfoldable pub layout : Sizes → Alloc → ℕ → ℕ × ℕ → Layout
layout z a content (blocks, tables) = record {
  refcount_tables = tables;
  refcount_blocks = blocks;
  total_clusters = content + (tables + blocks);
  refcount_table_start = 1;
  refcount_block_start = 1 + tables;
  l1_table_start = 1 + tables + blocks;
  l2_table_start = 1 + tables + blocks + z.allocated_l1_tables;
  data_start = 1 + tables + blocks + z.allocated_l1_tables + a.allocated_l2_tables;
}
