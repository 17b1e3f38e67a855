-- ===== src/Rrdd/RoundTrip.antt =====
-- What rrdd.py writes is what rrd_protocol_v2.ml reads.
use mathlib.Core.Path.{subst}
use xen_api.Base.{
  ℕ, ◌+◌, ◌*◌, ◌<◌, ◌^◌, ◌%◌, true, false, List, ◌++◌, ◌≡◌, refl, sym, ap, length, length-append,
  append_assoc, arith, Bool-cases, inl, inr, ◌==◌,
}
use xen_api.Base.Bytes.{Bytes, encode, length-encode, bytes_eq_self}
use xen_api.Base.Exec.{ok}
use xen_api.Base.Int.{pos}
use xen_api.Rrdd.Types.{DataSource, Libraries}
use xen_api.Rrdd.Sources.{sort_by_name, Ascending, sort_by_name-Ascending}
use xen_api.Rrdd.Writer.{Api, encoded_datasource_header, update}
use xen_api.Rrdd.Reader.{Reader, read_payload, read_metadata}
use xen_api.Rrdd.Collecting.{Checksums, AllPackable, Distinct, values_of, combined_of}
use xen_api.Rrdd.Layout.{concat}
use xen_api.Rrdd.Updated.{
  length-sort_by_name, length-values, header_of, all_written, update-written, all_written-Stands,
}
use xen_api.Rrdd.Reading.{
  Stands, sub-Stands, get_uint-Stands, Stands-left, Stands-right, as_read, AllReadable, blank,
  described, blank-described, get_int32-Stands, datasource_values-Stands,
}
use xen_api.Rrdd.Described.{Json, parse_metadata-dumps}

-- Where the fields stand in a file
record Fields (lib : Libraries) (timestamp : ℕ) (ds : List DataSource) (count : ℕ) (cs : Bytes)
    : Type 0 where
  pub name_at : Stands 0 encoded_datasource_header cs
  pub data_crc_at :
      Stands 11 (encode 4 ((lib.crc32) (encode 8 timestamp ++ concat (values_of ds)) 0)) cs
  pub metadata_crc_at :
      Stands 15 (encode 4 ((lib.crc32) ((lib.dumps) (combined_of ds)) 0 % 2 ^ 32)) cs
  pub count_at : Stands 19 (encode 4 count) cs
  pub timestamp_at : Stands 23 (encode 8 timestamp) cs
  pub data_at : Stands 23 (encode 8 timestamp ++ concat (values_of ds)) cs
  pub values_at : Stands 31 (concat (values_of ds)) cs
  pub metadata_length_at :
      Stands (31 + length ds * 8) (encode 4 (length ((lib.dumps) (combined_of ds)))) cs
  pub metadata_at : Stands (35 + length ds * 8) ((lib.dumps) (combined_of ds)) cs

all_written-Fields :
    (lib : Libraries) (timestamp : ℕ) (ds : List DataSource) (s : Api)
    → Fields lib timestamp ds (length s.datasources) (all_written lib timestamp ds s).content
unfolding header_of
all_written-Fields lib timestamp ds s =
    let cs = (all_written lib timestamp ds s).content in
    let A = encode 4 ((lib.crc32) (encode 8 timestamp ++ concat (values_of ds)) 0) in
    let B = encode 4 ((lib.crc32) ((lib.dumps) (combined_of ds)) 0 % 2 ^ 32) in
    let C = encode 4 (length s.datasources) in
    let T = encode 8 timestamp in
    let V = concat (values_of ds) in
    let L = encode 4 (length ((lib.dumps) (combined_of ds))) in
    let J = (lib.dumps) (combined_of ds) in
    let (name, all) = all_written-Stands lib timestamp ds s in
    let same : (A ++ (B ++ (C ++ T))) ++ (V ++ (L ++ J))
        ≡ A ++ (B ++ (C ++ ((T ++ V) ++ (L ++ J)))) =
      simp append_assoc refl in
    let a = subst (λ x. Stands 11 x cs) same all in
    let b = Stands-right 11 15 A _ cs a (ap (λ n. 11 + n) (sym (length-encode 4 _))) in
    let c = Stands-right 15 19 B _ cs b (ap (λ n. 15 + n) (sym (length-encode 4 _))) in
    let d = Stands-right 19 23 C _ cs c (ap (λ n. 19 + n) (sym (length-encode 4 _))) in
    let e = Stands-left 23 (T ++ V) (L ++ J) cs d in
    let f =
      Stands-right 23 (31 + length ds * 8) (T ++ V) (L ++ J) cs d
        (omega (arith, length-append T V, length-encode 8 timestamp, length-values ds)) in
    record {
      name_at = name;
      data_crc_at = Stands-left 11 A _ cs a;
      metadata_crc_at = Stands-left 15 B _ cs b;
      count_at = Stands-left 19 C _ cs c;
      timestamp_at = Stands-left 23 T V cs e;
      data_at = e;
      values_at = Stands-right 23 31 T V cs e (ap (λ n. 23 + n) (sym (length-encode 8 timestamp)));
      metadata_length_at = Stands-left (31 + length ds * 8) L J cs f;
      metadata_at =
          Stands-right (31 + length ds * 8) (35 + length ds * 8) L J cs f
            (omega (arith, length-encode 4 (length J)));
    }

read_metadata-Fields :
    (lib : Libraries) (timestamp : ℕ) (ds : List DataSource) (ps : AllReadable lib ds) (cs : Bytes)
    (r : Reader)
    → Fields lib timestamp ds (length ds) cs
    → Json lib
    → Checksums lib
    → Ascending ds
    → Distinct ds
    → length ((lib.dumps) (combined_of ds)) < 2 ^ 31
    → read_metadata lib
        ((lib.crc32) ((lib.dumps) (combined_of ds)) 0 % 2 ^ 32)
        (pos (length ds))
        cs
        r
      ≡ (
        ok (described lib ds ps),
        record r { last_metadata_crc = (lib.crc32) ((lib.dumps) (combined_of ds)) 0 % 2 ^ 32 },
      )
unfolding read_metadata
read_metadata-Fields lib timestamp ds ps cs r fields json laws up distinct short =
    let J = (lib.dumps) (combined_of ds) in
    let n =
      get_int32-Stands (length J) (31 + length ds * 8) cs r (fields.metadata_length_at) short in
    let m = sub-Stands (35 + length ds * 8) (length J) J cs r (fields.metadata_at) refl in
    let right : (((lib.crc32) J 0 % 2 ^ 32) == (lib.crc32) J 0) ≡ true =
      ground (arith, laws.small J 0) in
    rw (n, m, right, parse_metadata-dumps lib ds ps json up distinct) refl

eq_self : (n : ℕ) → (n == n) ≡ true
eq_self n = ground arith

small-crc32 : (lib : Libraries) (bs : Bytes) → Checksums lib → (lib.crc32) bs 0 < 2 ^ 32
small-crc32 lib bs laws = omega (arith, laws.small bs 0)

-- A reader that has not read this data yet, and that has read this metadata if it has its checksum
abbrev pub UpToDate :
    (lib : Libraries) → ℕ → (ds : List DataSource) → AllReadable lib ds → Reader → Type 0
UpToDate lib timestamp ds ps r =
    (((lib.crc32) (encode 8 timestamp ++ concat (values_of ds)) 0 == r.last_data_crc) ≡ false)
    × ((((lib.crc32) ((lib.dumps) (combined_of ds)) 0 % 2 ^ 32 == r.last_metadata_crc) ≡ true)
        → blank (r.cached_datasources) ≡ described lib ds ps)

read_payload-Fields :
    (lib : Libraries) (timestamp : ℕ) (ds : List DataSource) (ps : AllReadable lib ds) (cs : Bytes)
    (r : Reader)
    → Fields lib timestamp ds (length ds) cs
    → Json lib
    → Checksums lib
    → Ascending ds
    → Distinct ds
    → AllPackable ds
    → timestamp < 2 ^ 64
    → length ds < 2 ^ 31
    → length ((lib.dumps) (combined_of ds)) < 2 ^ 31
    → UpToDate lib timestamp ds ps r
    → (read_payload lib cs r).0 ≡ ok (timestamp, as_read lib ds ps)
unfolding read_payload
read_payload-Fields lib timestamp ds ps cs r fields json laws up distinct packs early few short
      (new, cached) =
    let D = (lib.crc32) (encode 8 timestamp ++ concat (values_of ds)) 0 in
    let M = (lib.crc32) ((lib.dumps) (combined_of ds)) 0 % 2 ^ 32 in
    let r1 = record r { last_data_crc = D } in
    let a = sub-Stands 0 11 encoded_datasource_header cs r (fields.name_at) refl in
    let b = get_uint-Stands 4 D 11 cs r (fields.data_crc_at) (small-crc32 lib _ laws) in
    let c =
      get_uint-Stands 4 M 15 cs r (fields.metadata_crc_at)
        (omega (arith, laws.small ((lib.dumps) (combined_of ds)) 0)) in
    let d = get_int32-Stands (length ds) 19 cs r (fields.count_at) few in
    let e = get_uint-Stands 8 timestamp 23 cs r (fields.timestamp_at) early in
    let f =
      sub-Stands 23 (8 + length ds * 8) (encode 8 timestamp ++ concat (values_of ds)) cs r
        (fields.data_at)
        (omega (
          arith,
          length-append (encode 8 timestamp) (concat (values_of ds)),
          length-encode 8 timestamp,
          length-values ds,
        )) in
    rw (a, bytes_eq_self encoded_datasource_header, b, new, c, d, e, f, eq_self D)
      (elim (Bool-cases (M == r.last_metadata_crc)) [
        | inl same ↦
            rw
              (
                same,
                datasource_values-Stands lib 31 ds ps r.cached_datasources cs r1 (cached same)
                    (fields.values_at) packs,
              )
              refl
        | inr other ↦
            rw
              (
                other,
                read_metadata-Fields lib timestamp ds ps cs r1 fields json laws up distinct short,
                datasource_values-Stands lib 31 ds ps (described lib ds ps) cs
                    (record r1 { last_metadata_crc = M }) (blank-described lib ds ps)
                    (fields.values_at) packs,
              )
              refl
      ])

-- If the values fit their 64 bits, the integers among them those with a sign, no name stands twice, the
-- counts fit the daemon's signed 32 bits, and the daemon can read type, owner and bounds of every source,
-- then an update succeeds, and a reader that is up to date and has not seen its data yet reads from the
-- file, whatever was in it before, the time and every source, in the order of the names, with its value and
-- all its fields.
pub update-Read :
    (lib : Libraries) (timestamp : ℕ) (s : Api) (r : Reader)
    (ps : AllReadable lib (sort_by_name s.datasources))
    → Checksums lib
    → Json lib
    → timestamp < 2 ^ 64
    → AllPackable (sort_by_name s.datasources)
    → Distinct (sort_by_name s.datasources)
    → length s.datasources < 2 ^ 31
    → length ((lib.dumps) (combined_of (sort_by_name s.datasources))) < 2 ^ 31
    → UpToDate lib timestamp (sort_by_name s.datasources) ps r
    → ((update lib timestamp s).0 ≡ ok tt)
      × ((read_payload lib (update lib timestamp s).1.content r).0
          ≡ ok (timestamp, as_read lib (sort_by_name s.datasources) ps))
update-Read lib timestamp s r ps laws json early packs distinct few short ready =
    let ds = sort_by_name s.datasources in
    let n = length-sort_by_name s.datasources in
    rw (update-written lib timestamp s laws packs distinct (omega arith) (omega arith)) (
      refl,
      read_payload-Fields lib timestamp ds ps (all_written lib timestamp ds s).content r
          (subst (λ k. Fields lib timestamp ds k (all_written lib timestamp ds s).content) (sym n)
            (all_written-Fields lib timestamp ds s))
          json laws (sort_by_name-Ascending s.datasources) distinct packs early
          (omega (arith, n, few)) short ready,
    )
