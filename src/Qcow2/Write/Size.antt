-- ===== src/Qcow2/Write/Size.antt =====
-- How many clusters qcow2-to-stdout.py writes.
use xen_api.Base.{
  ℕ, zero, suc, ◌+◌, ◌-◌, ◌*◌, ◌/◌, ◌≤◌, ◌<◌, ◌≡◌, refl, ap, ◌∙◌, Option, none, some, List, [], ◌∷◌,
  ◌++◌, map, arith, min, length, length-append, Bool-cases, inl, inr, Option-cases, ◌==◌,
}
use xen_api.Base.Bytes.{Bytes}
use xen_api.Qcow2.Bitmap.{Bitmap, set_from, test, bitmap_is_set, bitmap_iterator, ceil_div}
use xen_api.Qcow2.Bitmap.Count.{count_from}
use xen_api.Qcow2.Alloc.{Alloc, Job}
use xen_api.Qcow2.Layout.{Sizes, Layout, layout, content_clusters}
use xen_api.Qcow2.Layout.Refcounts.{le-ceil_div, ceil_div-le, ceil_div-le_self}
use xen_api.Qcow2.Write.{
  write_refcount_tables, write_refcount_blocks, write_l1_tables, write_l2_tables, write_data,
  write_header, write_clusters,
}

length-map : {A B : Type 0} (f : A → B) (xs : List A) → length (map f xs) ≡ length xs
length-map f [] = refl
length-map f (x ∷ xs) = ap suc (length-map f xs)

-- A table that is filled takes one off the tables that are needed.
module _ (n d : ℕ) (h : 0 < d) (p : 0 < n) where
  at_most : ceil_div n d ≤ suc (ceil_div (n - min n d) d)
  at_most =
      ceil_div-le n d (suc (ceil_div (n - min n d) d)) h (room (le-ceil_div (n - min n d) d h))
    where
      room : n - min n d ≤ ceil_div (n - min n d) d * d → n ≤ suc (ceil_div (n - min n d) d) * d
      room q = grind arith

  at_least : (c : ℕ) → n ≤ c * d → suc (ceil_div (n - min n d) d) ≤ c
  at_least zero q = absurd (grind arith)
  at_least (suc c) q =
      let less : ceil_div (n - min n d) d ≤ c = ceil_div-le (n - min n d) d c h (grind arith) in
      omega arith

  ceil_div_step : suc (ceil_div (n - min n d) d) ≡ ceil_div n d
  ceil_div_step = omega (arith, at_most, at_least (ceil_div n d) (le-ceil_div n d h))

module _ (cluster_size : ℕ) where
  length-write_refcount_blocks :
      (bits n remaining : ℕ) → length (write_refcount_blocks cluster_size bits n remaining) ≡ n
  unfolding write_refcount_blocks
  length-write_refcount_blocks bits zero remaining = refl
  length-write_refcount_blocks bits (suc n) remaining =
      ap suc (length-write_refcount_blocks bits n _)

  length-write_l1_tables :
      (l1 : Bitmap) (n tbl offset : ℕ) → length (write_l1_tables cluster_size l1 n tbl offset) ≡ n
  unfolding write_l1_tables
  length-write_l1_tables l1 zero tbl offset = refl
  length-write_l1_tables l1 (suc n) tbl offset = ap suc (length-write_l1_tables l1 n (tbl + 1) _)

  length-write_l2_tables :
      (name : Option (List ℕ)) (l1 l2 : Bitmap) (n tbl offset : ℕ)
      → length (write_l2_tables cluster_size name l1 l2 n tbl offset) ≡ count_from l1 tbl n
  unfolding write_l2_tables set_from
  length-write_l2_tables name l1 l2 zero tbl offset = refl
  length-write_l2_tables name l1 l2 (suc n) tbl offset =
      elim (Bool-cases (test (bitmap_is_set l1 tbl))) [
        | inl there ↦ rw there (ap suc (length-write_l2_tables name l1 l2 n (tbl + 1) _))
        | inr empty ↦ rw empty (length-write_l2_tables name l1 l2 n (tbl + 1) _)
      ]

  module _ (h : 0 < cluster_size / 8) where
    length-write_refcount_tables :
        (fuel remaining offset : ℕ)
        → remaining ≤ fuel
        → length (write_refcount_tables cluster_size fuel remaining offset)
          ≡ ceil_div remaining (cluster_size / 8)
    unfolding write_refcount_tables
    length-write_refcount_tables zero remaining offset l =
        let none_left : remaining ≡ 0 = omega arith in
        rw none_left (omega (arith, ceil_div-le_self 0 (cluster_size / 8) h))
    length-write_refcount_tables (suc fuel) remaining offset l =
        elim (Bool-cases (remaining == 0)) [
          | inl nothing ↦
              (let none_left : remaining ≡ 0 = ground arith in
                rw none_left (omega (arith, ceil_div-le_self 0 (cluster_size / 8) h)))
          | inr more ↦
              (let some_left : 0 < remaining = ground arith in
                rw more (
                  ap suc (
                    length-write_refcount_tables fuel (remaining - min remaining (cluster_size / 8))
                      _ (omega arith))
                  ∙ ceil_div_step remaining (cluster_size / 8) h some_left))
        ]

length-write_data :
    (j : Job) (z : Sizes) (a : Alloc)
    → j.data_file_name ≡ none
    → length (write_data j z a) ≡ count_from a.l2_bitmap 0 z.total_data_clusters
unfolding write_data set_from bitmap_iterator
length-write_data j z a e = rw e (length-map _ (bitmap_iterator a.l2_bitmap z.total_data_clusters))

no_data_written :
    (j : Job) (z : Sizes) (a : Alloc) (n : List ℕ)
    → j.data_file_name ≡ some n
    → write_data j z a ≡ []
unfolding write_data
no_data_written j z a n e = rw e refl

parts :
    (x : Bytes) (ts bs cs ds es : List Bytes)
    → length (x ∷ ts ++ (bs ++ (cs ++ (ds ++ es))))
      ≡ 1 + length ts + length bs + length cs + length ds + length es
parts x ts bs cs ds es = omega (
  arith,
  length-append ts (bs ++ (cs ++ (ds ++ es))),
  length-append bs (cs ++ (ds ++ es)),
  length-append cs (ds ++ es),
  length-append ds es,
)

module _ (j : Job) (z : Sizes) (a : Alloc) (blocks : ℕ) (h : 0 < j.cluster_size / 8)
    (tables_counted : a.allocated_l2_tables ≡ count_from a.l1_bitmap 0 z.l1_entries)
    (data_counted : a.allocated_data_clusters
      ≡ count_from a.l2_bitmap 0 z.total_data_clusters) where
  abbrev planned : Layout
  planned = layout z a (content_clusters j z a) (blocks, ceil_div blocks (j.cluster_size / 8))

  content :
      content_clusters j z a
      ≡ 1 + z.allocated_l1_tables + a.allocated_l2_tables + length (write_data j z a)
  unfolding content_clusters
  content = elim (Option-cases j.data_file_name) [
    | inl inside ↦ ground (arith, inside, length-write_data j z a inside, data_counted)
    | inr (name, outside) ↦ ground (arith, outside, no_data_written j z a name outside)
  ]

  -- If the counters are the numbers of set entries, the clusters that are written are as many as the
  -- layout has counted, refcounts included, with a data file or without.
  pub length-write_clusters : length (write_clusters j z a planned) ≡ planned.total_clusters
  unfolding write_clusters layout
  length-write_clusters =
      parts (write_header j z planned)
        (write_refcount_tables j.cluster_size planned.refcount_blocks planned.refcount_blocks
          (planned.refcount_block_start * j.cluster_size))
        (write_refcount_blocks j.cluster_size j.refcount_bits planned.refcount_blocks
          planned.total_clusters)
        (write_l1_tables j.cluster_size a.l1_bitmap z.allocated_l1_tables 0
          (planned.l2_table_start * j.cluster_size))
        (write_l2_tables j.cluster_size j.data_file_name a.l1_bitmap a.l2_bitmap z.l1_entries 0
          (planned.data_start * j.cluster_size))
        (write_data j z a)
      ∙ omega (
        arith,
        content,
        tables_counted,
        length-write_refcount_tables j.cluster_size h blocks blocks
            (planned.refcount_block_start * j.cluster_size) (omega arith),
        length-write_refcount_blocks j.cluster_size j.refcount_bits blocks planned.total_clusters,
        length-write_l1_tables j.cluster_size a.l1_bitmap z.allocated_l1_tables 0
            (planned.l2_table_start * j.cluster_size),
        length-write_l2_tables j.cluster_size j.data_file_name a.l1_bitmap a.l2_bitmap z.l1_entries
            0 (planned.data_start * j.cluster_size),
      )
