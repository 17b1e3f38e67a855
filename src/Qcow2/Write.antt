-- ===== src/Qcow2/Write.antt =====
-- python3/libexec/qcow2-to-stdout.py: the second half of `write_qcow2_content`. The output is the list
-- of what is written, a cluster at a time.
pub mod Size
use Prim.Native.Nat.{bit_or}
use xen_api.Base.{
  ℕ, zero, suc, ◌+◌, ◌-◌, ◌*◌, ◌/◌, ◌%◌, ◌^◌, min, Option, none, some, List, [], ◌∷◌, ◌++◌, ltb,
  ◌==◌, if◌then◌else◌, length, take, drop, replicate, get_elem?, set, map,
}
use xen_api.Base.Bytes.{Bytes, encode, codes}
use xen_api.Base.Utf8.{utf8_encode}
use xen_api.Base.Exec.{Result, ok, err}
use xen_api.Qcow2.Bitmap.{Bitmap, bitmap_is_set, bitmap_iterator, test, align_up}
use xen_api.Qcow2.Alloc.{Failure, too_large, Alloc, Job, pread, pad}
use xen_api.Qcow2.Layout.{
  Sizes, sizes, start_alloc, choose, refcounts, content_clusters, Layout, layout,
}

-- struct.pack_into of packed bytes
unfoldable pub pack_into : Bytes → ℕ → Bytes → Bytes
pack_into cluster offset bytes =
    take offset cluster ++ (bytes ++ drop (offset + length bytes) cluster)

-- QCOW_OFLAG_COPIED
abbrev pub oflag_copied : ℕ
oflag_copied = 2 ^ 63

abbrev pub blank : ℕ → Bytes
blank cluster_size = replicate cluster_size 0

-- int(math.log2(n)), for the powers of two that the arguments allow
unfoldable pub log2_fuel : ℕ → ℕ → ℕ
log2_fuel zero n = 0
log2_fuel (suc fuel) n = let rest = log2_fuel fuel (n / 2) in if ltb n 2 then 0 else rest + 1

unfoldable pub log2 : ℕ → ℕ
unfolding log2_fuel
log2 n = log2_fuel n n

-- A name of `n` bytes, padded with zeroes or cut (the struct code `s`).
unfoldable pub fixed : ℕ → Bytes → Bytes
fixed n bytes = take n (bytes ++ replicate n 0)

abbrev pub features : List (ℕ × ℕ × Bytes)
features =
    (0, 0, codes "dirty bit")
    ∷ (0, 1, codes "corrupt bit")
    ∷ (0, 2, codes "external data file")
    ∷ (0, 3, codes "compression type")
    ∷ (0, 4, codes "extended L2 entries")
    ∷ (1, 0, codes "lazy refcounts")
    ∷ (2, 0, codes "bitmaps")
    ∷ (2, 1, codes "raw external data")
    ∷ []

unfoldable pub write_feature_rows : Bytes → ℕ → List (ℕ × ℕ × Bytes) → Bytes
unfolding pack_into fixed
write_feature_rows cluster offset [] = cluster
write_feature_rows cluster offset ((ty, bit, name) ∷ rows) =
    write_feature_rows (pack_into cluster offset (ty ∷ bit ∷ fixed 46 name)) (offset + 48) rows

unfoldable pub write_feature_table : Bytes → ℕ → Bytes
unfolding write_feature_rows
write_feature_table cluster offset =
    let named = pack_into cluster offset (encode 4 0x6803F857) in
    let sized = pack_into named (offset + 4) (encode 4 (length features * 48)) in
    write_feature_rows sized (offset + 8) features

unfoldable pub write_features : Bytes → ℕ → Option (List ℕ) → Bytes
unfolding write_feature_table
write_features cluster offset none = write_feature_table cluster offset
write_features cluster offset (some data_file_name) =
    let encoded_name = utf8_encode data_file_name in
    let padded = align_up (length encoded_name) 8 in
    write_feature_table
      (pack_into cluster offset
        (encode 4 0x44415441 ++ (encode 4 (length encoded_name) ++ fixed padded encoded_name)))
      (offset + (8 + padded))

-- The fields of the header, in the order of the format ">4sIQIIQIIQQIIQQQQII".
unfoldable pub header_fields : Job → Sizes → Layout → Bytes
unfolding log2
header_fields j z l =
    (0x51 ∷ 0x46 ∷ 0x49 ∷ 0xfb ∷ [])
    ++ (encode 4 3
        ++ (encode 8 0
            ++ (encode 4 0
                ++ (encode 4 (log2 j.cluster_size)
                    ++ (encode 8 z.disk_size
                        ++ (encode 4 0
                            ++ (encode 4 z.l1_entries
                                ++ (encode 8 (
                                      if z.allocated_l1_tables == 0
                                      then 0
                                      else l.l1_table_start * j.cluster_size)
                                    ++ (encode 8 (l.refcount_table_start * j.cluster_size)
                                        ++ (encode 4 l.refcount_tables
                                            ++ (encode 4 0
                                                ++ (encode 8 0
                                                    ++ (encode 8 (elim j.data_file_name [
                                                      | none ↦ 0
                                                      | some _ ↦ 2 ^ 2
                                                    ])
                                                        ++ (encode 8 0
                                                            ++ (encode 8
                                                            (if j.data_file_raw then 2 ^ 1 else 0)
                                                            ++ (encode 4 (log2 j.refcount_bits)
                                                            ++ encode 4 112))))))))))))))))

unfoldable pub write_header : Job → Sizes → Layout → Bytes
unfolding write_features header_fields
write_header j z l =
    write_features (pack_into (blank j.cluster_size) 0 (header_fields j z l)) 112 j.data_file_name

module _ (cluster_size : ℕ) where
  -- for idx in range(idx, idx + n): a pointer to the next refcount block
  unfoldable pub fill_refcount_table : ℕ → ℕ → Bytes → ℕ → Bytes
  fill_refcount_table zero idx cluster cur_offset = cluster
  fill_refcount_table (suc n) idx cluster cur_offset =
      fill_refcount_table n (idx + 1) (pack_into cluster (idx * 8) (encode 8 cur_offset))
        (cur_offset + cluster_size)

  -- `while remaining_refcount_table_entries > 0`, with the number of entries for fuel
  unfoldable pub write_refcount_tables : ℕ → ℕ → ℕ → List Bytes
  unfolding fill_refcount_table
  write_refcount_tables zero remaining cur_offset = []
  write_refcount_tables (suc fuel) remaining cur_offset =
      let to_write = min remaining (cluster_size / 8) in
      let rest =
        write_refcount_tables fuel (remaining - to_write) (cur_offset + to_write * cluster_size) in
      if remaining == 0
      then []
      else fill_refcount_table to_write 0 (blank cluster_size) cur_offset ∷ rest

  -- `cluster[i] |= 1 << shift`
  unfoldable pub or_bit : Bytes → ℕ → ℕ → Bytes
  or_bit cluster i shift = elim (get_elem? cluster i) [
    | none ↦ cluster
    | some b ↦ set cluster i (bit_or b (2 ^ shift))
  ]

  -- One refcount of 1, of the width that the image has.
  unfoldable pub put_refcount : ℕ → Bytes → ℕ → Bytes
  unfolding or_bit
  put_refcount refcount_bits cluster idx =
      if refcount_bits == 64
      then pack_into cluster (idx * 8) (encode 8 1)
      else if refcount_bits == 32
      then pack_into cluster (idx * 4) (encode 4 1)
      else if refcount_bits == 16
      then pack_into cluster (idx * 2) (encode 2 1)
      else if refcount_bits == 8
      then set cluster idx 1
      else if refcount_bits == 4
      then or_bit cluster (idx / 2) (idx % 2 * 4)
      else if refcount_bits == 2
      then or_bit cluster (idx / 4) (idx % 4 * 2)
      else if refcount_bits == 1
      then or_bit cluster (idx / 8) (idx % 8)
      else cluster

  unfoldable pub fill_refcounts : ℕ → ℕ → ℕ → Bytes → Bytes
  unfolding put_refcount
  fill_refcounts refcount_bits zero idx cluster = cluster
  fill_refcounts refcount_bits (suc n) idx cluster =
      fill_refcounts refcount_bits n (idx + 1) (put_refcount refcount_bits cluster idx)

  -- for tbl in range(allocated_refcount_blocks)
  unfoldable pub write_refcount_blocks : ℕ → ℕ → ℕ → List Bytes
  unfolding fill_refcounts
  write_refcount_blocks refcount_bits zero remaining = []
  write_refcount_blocks refcount_bits (suc n) remaining =
      let to_write = min remaining (cluster_size * 8 / refcount_bits) in
      fill_refcounts refcount_bits to_write 0 (blank cluster_size)
      ∷ write_refcount_blocks refcount_bits n (remaining - to_write)

  -- The entries of one L1 table: the cluster, and the offset behind the L2 tables that it points to.
  unfoldable pub fill_l1_table : Bitmap → ℕ → ℕ → ℕ → Bytes × ℕ → Bytes × ℕ
  fill_l1_table l1_bitmap first zero idx (cluster, cur_offset) = (cluster, cur_offset)
  fill_l1_table l1_bitmap first (suc n) idx (cluster, cur_offset) =
      fill_l1_table l1_bitmap first n (idx + 1) (
        if test (bitmap_is_set l1_bitmap (first + idx))
        then (
          pack_into cluster (idx * 8) (encode 8 (bit_or cur_offset oflag_copied)),
          cur_offset + cluster_size,
        )
        else (cluster, cur_offset))

  unfoldable pub write_l1_tables : Bitmap → ℕ → ℕ → ℕ → List Bytes
  unfolding fill_l1_table
  write_l1_tables l1_bitmap zero tbl cur_offset = []
  write_l1_tables l1_bitmap (suc n) tbl cur_offset =
      let (cluster, next) =
        fill_l1_table l1_bitmap (tbl * (cluster_size / 8)) (cluster_size / 8) 0
          (blank cluster_size, cur_offset) in
      cluster ∷ write_l1_tables l1_bitmap n (tbl + 1) next

  -- The entries of one L2 table. With an external data file an entry points to the cluster's own place.
  unfoldable pub fill_l2_table : Option (List ℕ) → Bitmap → ℕ → ℕ → ℕ → Bytes × ℕ → Bytes × ℕ
  fill_l2_table name l2_bitmap first zero idx (cluster, cur_offset) = (cluster, cur_offset)
  fill_l2_table name l2_bitmap first (suc n) idx (cluster, cur_offset) =
      fill_l2_table name l2_bitmap first n (idx + 1) (
        if test (bitmap_is_set l2_bitmap (first + idx))
        then (elim name [
          | none ↦ (
            pack_into cluster (idx * 8) (encode 8 (bit_or cur_offset oflag_copied)),
            cur_offset + cluster_size,
          )
          | some _ ↦ (
            pack_into cluster (idx * 8)
                (encode 8 (bit_or ((first + idx) * cluster_size) oflag_copied)),
            cur_offset,
          )
        ])
        else (cluster, cur_offset))

  -- for tbl in range(tbl, tbl + n): the tables that an L1 entry points to
  unfoldable pub write_l2_tables : Option (List ℕ) → Bitmap → Bitmap → ℕ → ℕ → ℕ → List Bytes
  unfolding fill_l2_table
  write_l2_tables name l1_bitmap l2_bitmap zero tbl cur_offset = []
  write_l2_tables name l1_bitmap l2_bitmap (suc n) tbl cur_offset =
      let (cluster, next) =
        fill_l2_table name l2_bitmap (tbl * (cluster_size / 8)) (cluster_size / 8) 0
          (blank cluster_size, cur_offset) in
      let rest = write_l2_tables name l1_bitmap l2_bitmap n (tbl + 1) next in
      let skipped = write_l2_tables name l1_bitmap l2_bitmap n (tbl + 1) cur_offset in
      if test (bitmap_is_set l1_bitmap tbl) then cluster ∷ rest else skipped

-- The data clusters, unless they stay in the external file.
unfoldable pub write_data : Job → Sizes → Alloc → List Bytes
write_data j z a = elim j.data_file_name [
  | some _ ↦ []
  | none ↦
      map (λ idx. pad j.cluster_size (pread j.input j.cluster_size (j.cluster_size * idx)))
        (bitmap_iterator a.l2_bitmap z.total_data_clusters)
]

unfoldable pub write_clusters : Job → Sizes → Alloc → Layout → List Bytes
unfolding write_header write_refcount_tables write_refcount_blocks write_l1_tables write_l2_tables
    write_data
write_clusters j z a l =
    write_header j z l
      ∷ write_refcount_tables j.cluster_size l.refcount_blocks l.refcount_blocks
          (l.refcount_block_start * j.cluster_size)
    ++ (write_refcount_blocks j.cluster_size j.refcount_bits l.refcount_blocks l.total_clusters
        ++ (write_l1_tables j.cluster_size a.l1_bitmap z.allocated_l1_tables 0
              (l.l2_table_start * j.cluster_size)
            ++ (write_l2_tables j.cluster_size j.data_file_name a.l1_bitmap a.l2_bitmap z.l1_entries
                  0 (l.data_start * j.cluster_size)
                ++ write_data j z a)))

-- What the loop over refcount blocks found, written out. The fuel of that loop is enough wherever
-- `refcounts` is some.
unfoldable pub write_all : Job → Sizes → Alloc → Option (ℕ × ℕ) → Option (List Bytes)
unfolding write_clusters
write_all j z a none = none
write_all j z a (some counts) =
    some (write_clusters j z a (layout z a (content_clusters j z a) counts))

-- `write_qcow2_content`: what is written, or the way in which it stops before it writes.
unfoldable pub write_qcow2_content : Job → Result Failure (Option (List Bytes))
unfolding write_all
write_qcow2_content j =
    let z = sizes j in
    if ltb (32 * 1024 * 1024) (z.l1_entries * 8)
    then err too_large
    else (let (r, a) = choose j z (start_alloc j z) in
        elim r [
          | err e ↦ err e
          | ok _ ↦ ok (
              write_all j z a (
                refcounts (content_clusters j z a) (j.cluster_size * 8 / j.refcount_bits)
                  (j.cluster_size / 8)))
        ])
