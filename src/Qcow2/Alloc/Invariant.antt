-- ===== src/Qcow2/Alloc/Invariant.antt =====
-- What `allocate_cluster` of qcow2-to-stdout.py keeps true of the two bitmaps and the two counters.
use xen_api.Base.{
  ℕ, ◌+◌, ◌*◌, ◌/◌, ◌≤◌, ◌≡◌, refl, Bool, true, false, none, some, ◌==◌, if◌then◌else◌, length,
  arith, Bool-cases, Option-cases, inl, inr, ◌⊎◌,
}
use xen_api.Base.Exec.{ok, err}
use xen_api.Qcow2.Bitmap.{Bitmap, bitmap_set, bitmap_is_set, test}
use xen_api.Qcow2.Bitmap.Laws.{IsBytes, bitmap_set-SetAt, is_set-lt}
use xen_api.Qcow2.Bitmap.Count.{count_from, count-SetAt, test-SetAt}
use xen_api.Qcow2.Alloc.{Alloc, allocate_l2_table, allocate_cluster, index_error}

-- `bits` is an upper bound of the indices: eight for each byte.
abbrev pub all_set : Bitmap → ℕ
all_set bitmap = count_from bitmap 0 (8 * length bitmap)

pub record IsConsistent (entries : ℕ) (a : Alloc) : Type 0 where
  pub bytes1 : IsBytes a.l1_bitmap
  pub bytes2 : IsBytes a.l2_bitmap
  pub tables : a.allocated_l2_tables ≡ all_set a.l1_bitmap
  pub counted : all_set a.l2_bitmap ≤ a.allocated_data_clusters
  pub reached :
      (idx : ℕ)
      → test (bitmap_is_set a.l2_bitmap idx) ≡ true
      → test (bitmap_is_set a.l1_bitmap (idx / entries)) ≡ true

-- Between the two halves of `allocate_cluster` one index may still lack its L1 entry.
record IsPending (entries idx : ℕ) (a : Alloc) : Type 0 where
  bytes1 : IsBytes a.l1_bitmap
  bytes2 : IsBytes a.l2_bitmap
  tables : a.allocated_l2_tables ≡ all_set a.l1_bitmap
  counted : all_set a.l2_bitmap ≤ a.allocated_data_clusters
  reached :
      (j : ℕ)
      → test (bitmap_is_set a.l2_bitmap j) ≡ true
      → (j ≡ idx) ⊎ (test (bitmap_is_set a.l1_bitmap (j / entries)) ≡ true)

module _ (entries : ℕ) where
  marked-IsPending :
      (idx : ℕ) (a : Alloc) (l2 : Bitmap)
      → IsConsistent entries a
      → bitmap_set a.l2_bitmap idx ≡ some l2
      → IsPending entries idx
          (record a { l2_bitmap = l2; allocated_data_clusters = a.allocated_data_clusters + 1 })
  marked-IsPending idx a l2 h e =
      let s = bitmap_set-SetAt a.l2_bitmap idx l2 h.bytes2 e in
      record {
        bytes1 = h.bytes1;
        bytes2 = s.bytes;
        tables = h.tables;
        counted = rw s.size (
            ground (arith, count-SetAt a.l2_bitmap l2 idx s 0 (8 * length a.l2_bitmap), h.counted));
        reached = λ j t. old_or_new (idx == j) j (test-SetAt a.l2_bitmap l2 idx s j) t;
      }
    where
      old_or_new :
          Bool
          → (j : ℕ)
          → test (bitmap_is_set l2 j)
            ≡ (if idx == j then true else test (bitmap_is_set a.l2_bitmap j))
          → test (bitmap_is_set l2 j) ≡ true
          → (j ≡ idx) ⊎ (test (bitmap_is_set a.l1_bitmap (j / entries)) ≡ true)
      old_or_new b j s t = elim (Bool-cases (idx == j)) [
        | inl same ↦ inl (ground (arith, same))
        | inr other ↦ inr (h.reached j (ground (arith, other, s, t)))
      ]

  present-IsConsistent :
      (idx : ℕ) (a : Alloc)
      → IsPending entries idx a
      → bitmap_is_set a.l1_bitmap (idx / entries) ≡ some true
      → IsConsistent entries a
  present-IsConsistent idx a h e = record {
    bytes1 = h.bytes1;
    bytes2 = h.bytes2;
    tables = h.tables;
    counted = h.counted;
    reached = λ j t. elim (h.reached j t) [ inl same ↦ rw (same, e) refl | inr known ↦ known ];
  }

  added-IsConsistent :
      (idx : ℕ) (a : Alloc) (l1 : Bitmap)
      → IsPending entries idx a
      → bitmap_is_set a.l1_bitmap (idx / entries) ≡ some false
      → bitmap_set a.l1_bitmap (idx / entries) ≡ some l1
      → IsConsistent entries
          (record a { l1_bitmap = l1; allocated_l2_tables = a.allocated_l2_tables + 1 })
  added-IsConsistent idx a l1 h e p =
      let s = bitmap_set-SetAt a.l1_bitmap (idx / entries) l1 h.bytes1 p in
      record {
        bytes1 = s.bytes;
        bytes2 = h.bytes2;
        tables = rw s.size (
            ground (
              arith,
              count-SetAt a.l1_bitmap l1 (idx / entries) s 0 (8 * length a.l1_bitmap),
              h.tables,
              e,
              is_set-lt a.l1_bitmap (idx / entries) false e,
            ));
        counted = h.counted;
        reached = λ j t. elim (h.reached j t) [
          | inl same ↦
              rw same (ground (arith, test-SetAt a.l1_bitmap l1 (idx / entries) s (idx / entries)))
          | inr known ↦
              ground (arith, known, test-SetAt a.l1_bitmap l1 (idx / entries) s (j / entries))
        ];
      }

  module _ (k : ℕ) (a : Alloc) where
    out_of_range : bitmap_is_set a.l1_bitmap k ≡ none → allocate_l2_table k a ≡ (err index_error, a)
    unfolding allocate_l2_table
    out_of_range p = ground arith

    has_table : bitmap_is_set a.l1_bitmap k ≡ some true → allocate_l2_table k a ≡ (ok tt, a)
    unfolding allocate_l2_table
    has_table p = ground arith

    no_room :
        bitmap_is_set a.l1_bitmap k ≡ some false
        → bitmap_set a.l1_bitmap k ≡ none
        → allocate_l2_table k a ≡ (err index_error, a)
    unfolding allocate_l2_table
    no_room p q = ground arith

    new_table :
        (l1 : Bitmap)
        → bitmap_is_set a.l1_bitmap k ≡ some false
        → bitmap_set a.l1_bitmap k ≡ some l1
        → allocate_l2_table k a
          ≡ (ok tt, record a { l1_bitmap = l1; allocated_l2_tables = a.allocated_l2_tables + 1 })
    unfolding allocate_l2_table
    new_table l1 p q = ground arith

  table-IsConsistent :
      (idx : ℕ) (a : Alloc)
      → IsPending entries idx a
      → (allocate_l2_table (idx / entries) a).0 ≡ ok tt
      → IsConsistent entries (allocate_l2_table (idx / entries) a).1
  table-IsConsistent idx a h e = elim (Option-cases (bitmap_is_set a.l1_bitmap (idx / entries))) [
    | inl missing ↦ absurd (cc (e, out_of_range (idx / entries) a missing))
    | inr (true, set) ↦ rw (has_table (idx / entries) a set) (present-IsConsistent idx a h set)
    | inr (false, clear) ↦ elim (Option-cases (bitmap_set a.l1_bitmap (idx / entries))) [
      | inl missing ↦ absurd (cc (e, no_room (idx / entries) a clear missing))
      | inr (l1, p) ↦
          rw (new_table (idx / entries) a l1 clear p) (added-IsConsistent idx a l1 h clear p)
    ]
  ]

  -- An allocation of a cluster that succeeds keeps consistent counters and bitmaps consistent: the count
  -- of L2 tables is that of the set L1 entries, every set L2 entry has its L1 entry, and no set L2 entry
  -- is uncounted.
  pub allocate_cluster-IsConsistent :
      (idx : ℕ) (a : Alloc)
      → IsConsistent entries a
      → (allocate_cluster entries idx a).0 ≡ ok tt
      → IsConsistent entries (allocate_cluster entries idx a).1
  allocate_cluster-IsConsistent idx a h e = elim (Option-cases (bitmap_set a.l2_bitmap idx)) [
    | inl missing ↦ absurd (cc (e, no_cluster idx a missing))
    | inr (l2, p) ↦
        rw (marks idx a l2 p)
          (table-IsConsistent idx _ (marked-IsPending idx a l2 h p) (rw (marks idx a l2 p) at e))
  ]
    where
      no_cluster :
          (idx : ℕ) (a : Alloc)
          → bitmap_set a.l2_bitmap idx ≡ none
          → allocate_cluster entries idx a ≡ (err index_error, a)
      no_cluster idx a p = unfold allocate_cluster in ground arith

      marks :
          (idx : ℕ) (a : Alloc) (l2 : Bitmap)
          → bitmap_set a.l2_bitmap idx ≡ some l2
          → allocate_cluster entries idx a
            ≡ allocate_l2_table (idx / entries) (record a {
              l2_bitmap = l2;
              allocated_data_clusters = a.allocated_data_clusters + 1;
            })
      marks idx a l2 p = unfold allocate_cluster in ground arith
