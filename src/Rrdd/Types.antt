-- ===== src/Rrdd/Types.antt =====
-- ocaml/xcp-rrdd/scripts/rrdd/rrdd.py: data sources, and the libraries that are used. A float is its 64 bits.
use xen_api.Base.{ℕ, ◌^◌, Option, some, none, List, ltb, if◌then◌else◌}
use xen_api.Base.Bytes.{Bytes, codes, encode}
use xen_api.Base.Int.{ℤ, pos, negsuc}
use xen_api.Base.Utf8.{Text}

pub data Value : Type 0 where
  float : ℕ → Value
  int64 : ℤ → Value

-- `DataSource`; the bounds are as they are printed.
pub record DataSource : Type 0 where
  pub name : Text
  pub value : Value
  pub description : Text
  pub units : Text
  pub ty : Text
  pub owner : Text
  pub min_val : Text
  pub max_val : Text

-- What the metadata of a source says of it.
pub record Metadata : Type 0 where
  pub description : Text
  pub owner : Text
  pub value_type : Text
  pub ty : Text
  pub units : Text
  pub minimum : Text
  pub maximum : Text
  pub default : Text

abbrev pub value_type_of : Value → Text
value_type_of (float bits) = codes "float"
value_type_of (int64 n) = codes "int64"

unfoldable pub metadata_of : DataSource → Metadata
metadata_of d = record {
  description = d.description;
  owner = d.owner;
  value_type = value_type_of (d.value);
  ty = d.ty;
  units = d.units;
  minimum = d.min_val;
  maximum = d.max_val;
  default = codes "true";
}

-- The packers of the two types; `none` for an integer that does not fit
unfoldable pub pack_data : Value → Option Bytes
pack_data (float bits) = some (encode 8 bits)
pack_data (int64 (pos n)) = if ltb n (2 ^ 64) then some (encode 8 n) else none
pack_data (int64 (negsuc n)) = none

-- What the JSON reader of the daemon makes of a text; lists, numbers and what else there is are not told
-- apart.
mutual
  pub data Rpc : Type 0 where
    string : Text → Rpc
    dict : Members → Rpc
    other : Rpc

  pub data Members : Type 0 where
    empty : Members
    member : Text → Rpc → Members → Members

-- `crc32` of zlib, with the checksum of what stands before; `dumps` of json for the object whose member
-- `datasources` is the metadata, with sorted keys, as UTF-8; and for the daemon its JSON reader,
-- `float_of_string`, with the 64 bits of the float, and `cuts` of Astring, by a separator.
pub record Libraries : Type 0 where
  pub crc32 : Bytes → ℕ → ℕ
  pub dumps : List (Text × Metadata) → Bytes
  pub of_string : Bytes → Option Rpc
  pub float_of_string : Text → Option ℕ
  pub cuts : Text → Text → List Text
