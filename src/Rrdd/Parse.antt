-- ===== src/Rrdd/Parse.antt =====
-- ocaml/xcp-rrdd/lib/transport/base: what rrd_protocol_v2.ml and rrd_rpc.ml make of the metadata. Every
-- exception on the way is turned into `Invalid_payload`, here `none`.
use xen_api.Base.{ℕ, Bool, true, false, Option, some, none, List, [], ◌∷◌, if◌then◌else◌, ◌==◌}
use xen_api.Base.Bytes.{Bytes, codes, bytes_eq as text_eq}
use xen_api.Base.Int.{pos}
use xen_api.Base.Utf8.{Text}
use xen_api.Base.Words.{lower}
use xen_api.Rrdd.Types.{Value, float, int64, Libraries, Rpc, string, dict, Members, empty, member}
use mathlib.Core.List.{reverse}

pub data DsType : Type 0 where
  gauge absolute derive : DsType

pub data Transform : Type 0 where
  inverse identity : Transform

pub data Owner : Type 0 where
  host : Owner
  vm sr : Text → Owner

pub record Ds : Type 0 where
  pub name : Text
  pub description : Text
  pub units : Text
  pub ty : DsType
  pub value : Value
  pub min : ℕ
  pub max : ℕ
  pub default : Bool
  pub transform : Transform

infixl 5 ◌>>=◌
abbrev ◌>>=◌ : {A B : Type 0} → Option A → (A → Option B) → Option B
none >>= f = none
some a >>= f = f a

abbrev pub dict_of_rpc : Rpc → Option Members
dict_of_rpc (dict ms) = some ms
dict_of_rpc _ = none

abbrev pub string_of_rpc : Rpc → Option Text
string_of_rpc (string t) = some t
string_of_rpc _ = none

-- `List.assoc`
abbrev pub assoc : Text → Members → Option Rpc
assoc key empty = none
assoc key (member k v ms) = let rest = assoc key ms in if text_eq key k then some v else rest

abbrev pub assoc_opt : Text → Text → Members → Option Text
assoc_opt key default ms = elim (assoc key ms) [ none ↦ some default | some v ↦ string_of_rpc v ]

unfoldable pub ds_ty_of_string : Text → Option DsType
ds_ty_of_string s =
    if text_eq (lower s) (codes "gauge")
    then some gauge
    else if text_eq (lower s) (codes "absolute")
    then some absolute
    else if text_eq (lower s) (codes "derive")
    then some derive
    else none

abbrev pub owner_of_words : List Text → Option Owner
owner_of_words (a ∷ []) = if text_eq a (codes "host") then some host else none
owner_of_words (a ∷ uuid ∷ []) =
    if text_eq a (codes "vm")
    then some (vm uuid)
    else if text_eq a (codes "sr")
    then some (sr uuid)
    else none
owner_of_words _ = none

unfoldable pub owner_of_string : Libraries → Text → Option Owner
owner_of_string lib s = owner_of_words ((lib.cuts) (codes " ") (lower s))

abbrev pub bool_of_string : Text → Option Bool
bool_of_string s =
    if text_eq s (codes "true")
    then some true
    else if text_eq s (codes "false")
    then some false
    else none

abbrev pub transform_of_string : Text → Option Transform
transform_of_string s =
    if text_eq s (codes "inverse")
    then some inverse
    else if text_eq s (codes "identity")
    then some identity
    else none

unfoldable pub default_value_of_string : Text → Option Value
default_value_of_string s =
    if text_eq s (codes "float")
    then some (float 0)
    else if text_eq s (codes "int64")
    then some (int64 (pos 0))
    else none

-- The values are those of `default_value_of_string`.
unfoldable pub uninitialised_ds_of_rpc : Libraries → Text → Rpc → Option (Owner × Ds)
uninitialised_ds_of_rpc lib name rpc = dict_of_rpc rpc >>= λ kvs.
    assoc_opt (codes "description") [] kvs >>= λ description.
    assoc_opt (codes "units") [] kvs >>= λ units.
    assoc_opt (codes "type") (codes "absolute") kvs >>= λ type_text.
    ds_ty_of_string type_text >>= λ ty. assoc (codes "value_type") kvs >>= λ value_rpc.
    string_of_rpc value_rpc >>= λ value_text. default_value_of_string value_text >>= λ value.
    assoc_opt (codes "min") (codes "-infinity") kvs >>= λ min_text.
    (lib.float_of_string) min_text >>= λ min.
    assoc_opt (codes "max") (codes "infinity") kvs >>= λ max_text.
    (lib.float_of_string) max_text >>= λ max.
    assoc_opt (codes "owner") (codes "host") kvs >>= λ owner_text.
    owner_of_string lib owner_text >>= λ owner.
    assoc_opt (codes "default") (codes "false") kvs >>= λ default_text.
    bool_of_string default_text >>= λ default.
    assoc_opt (codes "transform") (codes "identity") kvs >>= λ transform_text.
    transform_of_string transform_text >>= λ transform. some (
      owner,
      record {
        name = name;
        description = description;
        units = units;
        ty = ty;
        value = value;
        min = min;
        max = max;
        default = default;
        transform = transform;
      },
    )

unfoldable pub datasources_of : Libraries → Members → Option (List (Owner × Ds))
datasources_of lib empty = some []
datasources_of lib (member name rpc ms) =
    let others = datasources_of lib ms in
    uninitialised_ds_of_rpc lib name rpc >>= λ d. others >>= λ ds. some (d ∷ ds)

abbrev pub parse_object : Libraries → Option Rpc → Option (List (Owner × Ds))
parse_object lib object =
    object >>= dict_of_rpc >>= assoc (codes "datasources") >>= dict_of_rpc >>= datasources_of lib

abbrev pub drop_nulls : Bytes → Bytes
drop_nulls [] = []
drop_nulls (b ∷ bs) = let rest = drop_nulls bs in if b == 0 then rest else b ∷ bs

unfoldable pub trim_nulls : Bytes → Bytes
trim_nulls bs = reverse (drop_nulls (reverse (drop_nulls bs)))

unfoldable pub parse_metadata : Libraries → Bytes → Option (List (Owner × Ds))
parse_metadata lib metadata = parse_object lib ((lib.of_string) (trim_nulls metadata))
