-- ===== src/Rrdd/Reader.antt =====
-- ocaml/xcp-rrdd/lib/transport/base/rrd_protocol_v2.ml: how the daemon reads the file. An access outside
-- the file is an exception. An `int` is as large as its numbers need.
use xen_api.Base.{
  ℕ, ◌+◌, ◌-◌, ◌*◌, ◌^◌, not, ltb, List, [], ◌∷◌, leb, ◌==◌, if◌then◌else◌, length, take, drop,
}
use xen_api.Base.Bytes.{Bytes, codes, decode, bytes_eq}
use xen_api.Base.Int.{ℤ, pos, negsuc}
use xen_api.Base.Exec.{Exec, pure, raise, modify, gets, or_raise, guard, ◌>>=◌, ◌>>◌}
use xen_api.Rrdd.Types.{Libraries, Value, float, int64}
use xen_api.Rrdd.Parse.{Owner, Ds, parse_metadata}

pub data ReadError : Type 0 where
  invalid_header_string no_update invalid_checksum invalid_payload out_of_bounds : ReadError

-- What the reader keeps between two reads.
pub record Reader : Type 0 where
  pub last_data_crc : ℕ
  pub last_metadata_crc : ℕ
  pub cached_datasources : List (Owner × Ds)

abbrev pub Read : Type 0 → Type 0
Read A = Exec ReadError Reader A

-- `n` bytes from a start
unfoldable pub sub : ℕ → ℕ → Bytes → Read Bytes
sub start n cs =
    if leb (start + n) (length cs) then pure (take n (drop start cs)) else raise out_of_bounds

abbrev pub get_uint : ℕ → ℕ → Bytes → Read ℕ
get_uint width start cs = sub start width cs >>= λ bs. pure (decode bs)

-- A number of twice the range `half`, read with a sign
abbrev pub signed : ℕ → ℕ → ℤ
signed half n = if ltb n half then pos n else negsuc (2 * half - n - 1)

-- The same as `sub`, for a start and a length that may be negative
abbrev pub sub_int : ℤ → ℤ → Bytes → Read Bytes
sub_int (pos start) (pos n) cs = sub start n cs
sub_int _ _ cs = raise out_of_bounds

-- `Int32.to_int (Cstruct.BE.get_uint32 cs start)`
abbrev pub get_int32 : ℤ → Bytes → Read ℤ
get_int32 start cs = sub_int start (pos 4) cs >>= λ bs. pure (signed (2 ^ 31) (decode bs))

-- `base + count * datasource_value_bytes`
abbrev pub behind_values : ℕ → ℤ → ℤ
behind_values base (pos count) = pos (base + count * 8)
behind_values base (negsuc n) =
    if leb ((n + 1) * 8) base then pos (base - (n + 1) * 8) else negsuc ((n + 1) * 8 - base - 1)

-- The start points of the fields
abbrev pub data_crc_start : ℕ
data_crc_start = 11

abbrev pub metadata_crc_start : ℕ
metadata_crc_start = data_crc_start + 4

abbrev pub datasource_count_start : ℕ
datasource_count_start = metadata_crc_start + 4

abbrev pub timestamp_start : ℕ
timestamp_start = datasource_count_start + 4

abbrev pub datasource_value_start : ℕ
datasource_value_start = timestamp_start + 8

-- A value of the same type, from its 64 bits
abbrev pub value_like : Value → ℕ → Value
value_like (float _) bits = float bits
value_like (int64 _) bits = int64 (signed (2 ^ 63) bits)

unfoldable pub datasource_values : ℕ → List (Owner × Ds) → Bytes → Read (List (Owner × Ds))
datasource_values start [] cs = pure []
datasource_values start ((owner, ds) ∷ rest) cs = get_uint 8 start cs >>= λ bits.
    datasource_values (start + 8) rest cs >>= λ others.
    pure ((owner, record ds { value = value_like (ds.value) bits }) ∷ others)

-- The metadata where its checksum has changed
unfoldable pub read_metadata : Libraries → ℕ → ℤ → Bytes → Read (List (Owner × Ds))
read_metadata lib metadata_crc count cs =
    get_int32 (behind_values datasource_value_start count) cs >>= λ metadata_length.
    sub_int (behind_values (datasource_value_start + 4) count) metadata_length cs >>= λ metadata.
    guard (metadata_crc == (lib.crc32) metadata 0) invalid_checksum
    >> modify (λ r. record r { last_metadata_crc = metadata_crc })
    >> or_raise (parse_metadata lib metadata) invalid_payload

-- The function of `make_payload_reader`: the bits of the timestamp, and the sources
unfoldable pub read_payload : Libraries → Bytes → Read (ℕ × List (Owner × Ds))
read_payload lib cs = sub 0 11 cs >>= λ header.
    guard (bytes_eq header (codes "DATASOURCES")) invalid_header_string
    >> get_uint 4 data_crc_start cs
    >>= λ data_crc. gets (λ r. r.last_data_crc) >>= λ last.
        guard (not (data_crc == last)) no_update
        >> get_uint 4 metadata_crc_start cs
        >>= λ metadata_crc. get_int32 (pos datasource_count_start) cs >>= λ count.
            get_uint 8 timestamp_start cs >>= λ timestamp.
            sub_int (pos timestamp_start) (behind_values 8 count) cs >>= λ crc_data.
            guard (data_crc == (lib.crc32) crc_data 0) invalid_checksum
            >> modify (λ r. record r { last_data_crc = data_crc })
            >> gets (λ r. r.last_metadata_crc)
            >>= λ last_metadata. gets (λ r. r.cached_datasources) >>= λ cached.
                (if metadata_crc == last_metadata
                  then pure cached
                  else read_metadata lib metadata_crc count cs)
                >>= λ kinds. datasource_values datasource_value_start kinds cs >>= λ sources.
                    modify (λ r. record r { cached_datasources = sources })
                    >> pure (timestamp, sources)
