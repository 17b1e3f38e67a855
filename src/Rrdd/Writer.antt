-- ===== src/Rrdd/Writer.antt =====
-- ocaml/xcp-rrdd/scripts/rrdd/rrdd.py: `API.update`, which writes the file. The file is its content and the
-- position in it; it is opened without being truncated.
use xen_api.Base.{
  ℕ, ◌+◌, ◌-◌, ◌%◌, ◌^◌, Option, some, none, List, [], ◌∷◌, ◌++◌, ltb, length, take, drop,
  replicate,
}
use xen_api.Base.Dict.{assign}
use xen_api.Base.Bytes.{Bytes, codes, encode}
use xen_api.Base.Exec.{Exec, modify, gets, or_raise, guard, ◌>>=◌, ◌>>◌}
use xen_api.Base.Utf8.{Text}
use xen_api.Rrdd.Types.{DataSource, Metadata, metadata_of, pack_data, Libraries}
use xen_api.Rrdd.Sources.{sort_by_name}

pub data Error : Type 0 where
  struct_error : Error

pub record Api : Type 0 where
  pub datasources : List DataSource
  pub content : Bytes
  pub position : ℕ

-- `set_datasource`, for a source that was built
unfoldable pub set_datasource : DataSource → Api → Api
set_datasource d s = record s { datasources = s.datasources ++ d ∷ [] }

-- The content before the position; a position behind the end leaves zeros between.
unfoldable pub before : Api → Bytes
before s = take (s.position) (s.content) ++ replicate (s.position - length s.content) 0

unfoldable pub write : Bytes → Api → Api
write bs s = record s {
  content = before s ++ (bs ++ drop (s.position + length bs) (s.content));
  position = s.position + length bs;
}

abbrev pub seek : ℕ → Api → Api
seek n s = record s { position = n }

unfoldable pub write_all : List Bytes → Api → Api
write_all [] s = s
write_all (bs ∷ rest) s = write_all rest (write bs s)

-- What the loop over the sources collects: values, their checksum, and metadata.
pub record Collected : Type 0 where
  pub data_values : List Bytes
  pub data_checksum : ℕ
  pub combined : List (Text × Metadata)

-- One round for a source that was packed
unfoldable pub add_source : Libraries → DataSource → Bytes → Collected → Collected
add_source lib d value c = record {
  data_values = c.data_values ++ value ∷ [];
  data_checksum = (lib.crc32) value (c.data_checksum) % 2 ^ 32;
  combined = assign (d.name) (metadata_of d) (c.combined);
}

abbrev pub collect_with : Option Bytes → (Bytes → Option Collected) → Option Collected
collect_with none go = none
collect_with (some value) go = go value

-- `for ds in sorted(...)`, `none` where a value cannot be packed
unfoldable pub collect : Libraries → List DataSource → Collected → Option Collected
collect lib [] c = some c
collect lib (d ∷ ds) c =
    collect_with (pack_data (d.value)) (λ value. collect lib ds (add_source lib d value c))

abbrev pub encoded_datasource_header : Bytes
encoded_datasource_header = codes "DATASOURCES"

-- The data and the metadata
unfoldable pub write_data : Libraries → Collected → Exec Error Api (Unit {0})
write_data lib c =
    modify (λ s. write_all (c.data_values) (seek (length encoded_datasource_header + 20) s))
    >> guard (ltb (length ((lib.dumps) (c.combined))) (2 ^ 32)) struct_error
    >> modify (write (encode 4 (length ((lib.dumps) (c.combined)))))
    >> modify (write ((lib.dumps) (c.combined)))

-- The header, behind them
unfoldable pub write_header : Libraries → ℕ → Collected → Exec Error Api (Unit {0})
write_header lib timestamp c =
    modify (λ s. write encoded_datasource_header (seek 0 s))
    >> (gets (λ s. length s.datasources) >>= λ count.
        guard (ltb count (2 ^ 32)) struct_error
        >> modify (
            write (
              encode 4 (c.data_checksum)
              ++ (encode 4 ((lib.crc32) ((lib.dumps) (c.combined)) 0 % 2 ^ 32)
                  ++ (encode 4 count ++ encode 8 timestamp)))))

abbrev pub start : Libraries → ℕ → Collected
start lib timestamp = record {
  data_values = [];
  data_checksum = (lib.crc32) (encode 8 timestamp) 0 % 2 ^ 32;
  combined = [];
}

-- `update`, at a time of these bits
unfoldable pub update : Libraries → ℕ → Exec Error Api (Unit {0})
update lib timestamp s =
    (or_raise (collect lib (sort_by_name (s.datasources)) (start lib timestamp)) struct_error
        >>= λ c.
            write_data lib c
            >> write_header lib timestamp c
            >> modify (λ s. record s { datasources = [] }))
      s
