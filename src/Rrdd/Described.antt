-- ===== src/Rrdd/Described.antt =====
-- The metadata of rrdd.py, as rrd_protocol_v2.ml reads them.
use xen_api.Base.{some, List, [], ◌∷◌, ◌≡◌, refl, ap, ◌∙◌}
use xen_api.Base.Bytes.{codes, bytes_eq}
use xen_api.Rrdd.Types.{
  DataSource, Value, float, int64, value_type_of, Libraries, Rpc, string, dict, Members, empty,
  member,
}
use xen_api.Rrdd.Parse.{
  uninitialised_ds_of_rpc, default_value_of_string, datasources_of, parse_object, parse_metadata,
  trim_nulls,
}
use xen_api.Rrdd.Sources.{Ascending}
use xen_api.Rrdd.Collecting.{Distinct, combined_of}
use xen_api.Rrdd.Reading.{IsReadable, AllReadable, seen, blank_value, described}

-- The members of the metadata of one source, and of all
abbrev pub rpc_of : DataSource → Rpc
rpc_of d = dict (
    member (codes "default") (string (codes "true")) (
      member (codes "description") (string (d.description)) (
        member (codes "max") (string (d.max_val)) (
          member (codes "min") (string (d.min_val)) (
            member (codes "owner") (string (d.owner)) (
              member (codes "type") (string (d.ty)) (
                member (codes "units") (string (d.units))
                  (member (codes "value_type") (string (value_type_of (d.value))) empty))))))))

abbrev pub members_of : List DataSource → Members
members_of [] = empty
members_of (d ∷ ds) = member (d.name) (rpc_of d) (members_of ds)

-- What the two JSON libraries promise: an object whose keys are in order and distinct is read in this order,
-- and the text has no null characters at its ends.
pub record Json (lib : Libraries) : Type 0 where
  pub parsed :
      (ds : List DataSource)
      → Ascending ds
      → Distinct ds
      → (lib.of_string) ((lib.dumps) (combined_of ds))
        ≡ some (dict (member (codes "datasources") (dict (members_of ds)) empty))
  pub trimmed :
      (ds : List DataSource)
      → trim_nulls ((lib.dumps) (combined_of ds)) ≡ (lib.dumps) (combined_of ds)

value_read : (v : Value) → default_value_of_string (value_type_of v) ≡ some (blank_value v)
unfolding default_value_of_string bytes_eq
value_read (float bits) = refl
value_read (int64 n) = refl

module _ (lib : Libraries) where
  uninitialised-seen :
      (d : DataSource) (p : IsReadable lib d)
      → uninitialised_ds_of_rpc lib d.name (rpc_of d) ≡ some (seen lib d p (blank_value (d.value)))
  unfolding uninitialised_ds_of_rpc bytes_eq
  uninitialised-seen d p =
      rw (p.ty_read, value_read (d.value), p.min_read, p.max_read, p.owner_read) refl

  datasources_of-members :
      (ds : List DataSource) (ps : AllReadable lib ds)
      → datasources_of lib (members_of ds) ≡ some (described lib ds ps)
  unfolding datasources_of
  datasources_of-members [] ps = refl
  datasources_of-members (d ∷ ds) (p, ps) =
      rw (uninitialised-seen d p, datasources_of-members ds ps) refl

  pub parse_metadata-dumps :
      (ds : List DataSource) (ps : AllReadable lib ds)
      → Json lib
      → Ascending ds
      → Distinct ds
      → parse_metadata lib ((lib.dumps) (combined_of ds)) ≡ some (described lib ds ps)
  unfolding parse_metadata bytes_eq
  parse_metadata-dumps ds ps json up distinct =
      ap (λ t. parse_object lib ((lib.of_string) t)) (json.trimmed ds)
      ∙ ap (parse_object lib) (json.parsed ds up distinct)
      ∙ datasources_of-members ds ps
