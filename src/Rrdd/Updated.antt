-- ===== src/Rrdd/Updated.antt =====
-- rrdd.py: the file after `update`.
use xen_api.Base.{
  ℕ, suc, ◌+◌, ◌*◌, ◌<◌, ◌^◌, ◌%◌, List, [], ◌∷◌, ◌++◌, ◌≡◌, refl, sym, ap, ◌∙◌, length,
  length-append, append_assoc, arith, lt→ltb,
}
use xen_api.Base.Bytes.{Bytes, encode, length-encode}
use xen_api.Base.Exec.{ok}
use xen_api.Rrdd.Types.{DataSource, Libraries}
use xen_api.Rrdd.Sources.{sort_by_name, insert}
use xen_api.Rrdd.Writer.{
  Api, before, write, seek, write_all, encoded_datasource_header, write_data, write_header, update,
}
use xen_api.Rrdd.Collecting.{
  bits_of, Checksums, AllPackable, Distinct, values_of, combined_of, collect-all,
}
use xen_api.Rrdd.Layout.{
  concat, length-before, before-write, before-write_all, content-write, content-header,
}
use xen_api.Rrdd.Reading.{Stands}

length-insert : (d : DataSource) (ds : List DataSource) → length (insert d ds) ≡ suc (length ds)
unfolding insert
length-insert d [] = refl
length-insert d (e ∷ es) = let rest = length-insert d es in ground (arith, rest)

pub length-sort_by_name : (ds : List DataSource) → length (sort_by_name ds) ≡ length ds
unfolding sort_by_name
length-sort_by_name [] = refl
length-sort_by_name (d ∷ ds) = length-insert d (sort_by_name ds) ∙ ap suc (length-sort_by_name ds)

pub length-values : (ds : List DataSource) → length (concat (values_of ds)) ≡ length ds * 8
length-values [] = refl
length-values (d ∷ ds) = omega (
  arith,
  length-values ds,
  length-encode 8 (bits_of (d.value)),
  length-append (encode 8 (bits_of (d.value))) (concat (values_of ds)),
)

datasources-write_all : (vs : List Bytes) (s : Api) → (write_all vs s).datasources ≡ s.datasources
unfolding write_all write
datasources-write_all [] s = refl
datasources-write_all (bs ∷ vs) s = datasources-write_all vs (write bs s)

-- The bytes of the header behind its name, and the metadata, for sources in their order
unfoldable pub header_of : Libraries → ℕ → List DataSource → ℕ → Bytes
header_of lib timestamp ds count =
    encode 4 ((lib.crc32) (encode 8 timestamp ++ concat (values_of ds)) 0)
    ++ (encode 4 ((lib.crc32) ((lib.dumps) (combined_of ds)) 0 % 2 ^ 32)
        ++ (encode 4 count ++ encode 8 timestamp))

unfoldable pub data_written : Libraries → List DataSource → Api → Api
data_written lib ds s = write ((lib.dumps) (combined_of ds)) (
    write (encode 4 (length ((lib.dumps) (combined_of ds)))) (write_all (values_of ds) (seek 31 s)))

unfoldable pub all_written : Libraries → ℕ → List DataSource → Api → Api
all_written lib timestamp ds s =
    record (write (header_of lib timestamp ds (length s.datasources))
      (write encoded_datasource_header (seek 0 (data_written lib ds s)))) { datasources = [] }

pub update-written :
    (lib : Libraries) (timestamp : ℕ) (s : Api)
    → Checksums lib
    → AllPackable (sort_by_name s.datasources)
    → Distinct (sort_by_name s.datasources)
    → length s.datasources < 2 ^ 32
    → length ((lib.dumps) (combined_of (sort_by_name s.datasources))) < 2 ^ 32
    → update lib timestamp s ≡ (ok tt, all_written lib timestamp (sort_by_name s.datasources) s)
unfolding update all_written data_written header_of write_data write_header write
update-written lib timestamp s laws packs distinct few short =
    let ds = sort_by_name s.datasources in
    let collected =
      collect-all lib (encode 8 timestamp) ds ((lib.crc32) (encode 8 timestamp) 0 % 2 ^ 32) laws
        (laws.small (encode 8 timestamp) 0) packs distinct in
    rw
      (
        collected,
        lt→ltb _ (2 ^ 32) short,
        datasources-write_all (values_of ds) (seek 31 s),
        lt→ltb _ (2 ^ 32) few,
      )
      refl

-- The data, the length of the metadata and the metadata
abbrev pub behind_header : Libraries → List DataSource → Bytes
behind_header lib ds =
    concat (values_of ds)
    ++ (encode 4 (length ((lib.dumps) (combined_of ds))) ++ (lib.dumps) (combined_of ds))

data_written-content :
    (lib : Libraries) (ds : List DataSource) (s : Api)
    → (t : Bytes) × ((data_written lib ds s).content
        ≡ before (seek 31 s) ++ (behind_header lib ds ++ t))
unfolding data_written
data_written-content lib ds s =
    let L = encode 4 (length ((lib.dumps) (combined_of ds))) in
    let J = (lib.dumps) (combined_of ds) in
    let V = concat (values_of ds) in
    let (t, e) = content-write J (write L (write_all (values_of ds) (seek 31 s))) in
    (
      t,
      e
          ∙ ap (λ x. x ++ t)
              (before-write J (write L (write_all (values_of ds) (seek 31 s)))
                ∙ ap (λ x. x ++ J)
                    (before-write L (write_all (values_of ds) (seek 31 s))
                      ∙ ap (λ x. x ++ L) (before-write_all (values_of ds) (seek 31 s))))
          ∙ simp append_assoc refl,
    )

length-header_of :
    (lib : Libraries) (timestamp : ℕ) (ds : List DataSource) (count : ℕ)
    → length (header_of lib timestamp ds count) ≡ 20
unfolding header_of
length-header_of lib timestamp ds count =
    let a = (lib.crc32) (encode 8 timestamp ++ concat (values_of ds)) 0 in
    let b = (lib.crc32) ((lib.dumps) (combined_of ds)) 0 % 2 ^ 32 in
    omega (
      arith,
      length-append (encode 4 a) (encode 4 b ++ (encode 4 count ++ encode 8 timestamp)),
      length-append (encode 4 b) (encode 4 count ++ encode 8 timestamp),
      length-append (encode 4 count) (encode 8 timestamp),
      length-encode 4 a,
      length-encode 4 b,
      length-encode 4 count,
      length-encode 8 timestamp,
    )

-- The name of the header stands at the start of the file, and the rest behind it.
pub all_written-Stands :
    (lib : Libraries) (timestamp : ℕ) (ds : List DataSource) (s : Api)
    → Stands 0 encoded_datasource_header (all_written lib timestamp ds s).content
      × Stands 11
          (header_of lib timestamp ds (length s.datasources) ++ behind_header lib ds)
          (all_written lib timestamp ds s).content
unfolding all_written
all_written-Stands lib timestamp ds s =
    let (t, e) = data_written-content lib ds s in
    let H = header_of lib timestamp ds (length s.datasources) in
    let whole =
      content-header encoded_datasource_header H (behind_header lib ds ++ t) (before (seek 31 s))
        (data_written lib ds s) e
        (length-before (seek 31 s)
          ∙ ap (λ n. 11 + n) (sym (length-header_of lib timestamp ds (length s.datasources)))) in
    (
      record { front = []; rest = H ++ (behind_header lib ds ++ t); whole = whole; place = refl },
      record {
        front = encoded_datasource_header;
        rest = t;
        whole =
            whole
            ∙ ap (λ x. encoded_datasource_header ++ x)
                (sym (append_assoc H (behind_header lib ds) t));
        place = refl;
      },
    )
