-- ===== src/Tests/Rrdd.antt =====
-- A plugin with two sources, a checksum that adds the bytes, and a small format for the metadata.
use xen_api.Base.{
  ℕ, ◌+◌, ◌%◌, ◌^◌, Option, some, none, List, [], ◌∷◌, ◌++◌, ◌≡◌, refl, sym, ap, ◌∙◌, ◌==◌,
  if◌then◌else◌, arith,
}
use xen_api.Base.Bytes.{Bytes, codes, bytes_eq as text_eq, encode}
use xen_api.Base.Int.{pos}
use xen_api.Base.Utf8.{Text}
use xen_api.Base.Exec.{ok}
use mathlib.Core.List.{reverse, reverse-append, reverse-reverse}
use xen_api.Rrdd.Types.{
  DataSource, Metadata, Libraries, Rpc, string, dict, Members, empty, member, float, int64,
  metadata_of, Value,
}
use xen_api.Rrdd.Sources.{sort_by_name, insert, text_leb}
use xen_api.Rrdd.Writer.{Api, update}
use xen_api.Base.Words.{to_lower}
use xen_api.Rrdd.Parse.{gauge, host, ds_ty_of_string, owner_of_string, trim_nulls, drop_nulls}
use xen_api.Rrdd.Reader.{Reader, read_payload}
use xen_api.Rrdd.Collecting.{Checksums, combined_of}
use xen_api.Rrdd.Reading.{as_read, Fits, IsReadable, AllReadable}
use xen_api.Rrdd.Described.{Json, rpc_of, members_of}
use xen_api.Rrdd.RoundTrip.{update-Read}

sum : Bytes → ℕ
sum [] = 0
sum (b ∷ bs) = b + sum bs

sum-append : (a b : Bytes) → sum (a ++ b) ≡ sum a + sum b
unfolding sum
sum-append [] b = omega arith
sum-append (x ∷ a) b = omega (arith, sum-append a b)

-- A text: each character behind a 3, and a 1 at the end
chars : Text → Bytes → Bytes
chars [] rest = 1 ∷ rest
chars (c ∷ cs) rest = 3 ∷ c ∷ chars cs rest

fields : List Text → Bytes → Bytes
fields [] rest = rest
fields (t ∷ ts) rest = chars t (fields ts rest)

-- Of each source there are the name and the fields that are not fixed.
abbrev texts_of : Text → Metadata → List Text
texts_of name m =
    name ∷ m.description ∷ m.maximum ∷ m.minimum ∷ m.owner ∷ m.ty ∷ m.units ∷ m.value_type ∷ []

entries : List (Text × Metadata) → Bytes
entries [] = 125 ∷ []
entries ((name, m) ∷ ms) = fields (texts_of name m) (entries ms)

abbrev add_char : ℕ → List Text → List Text
add_char c [] = []
add_char c (t ∷ ts) = (c ∷ t) ∷ ts

texts : Bytes → List Text
texts [] = []
texts (k ∷ []) = if k == 1 then [] ∷ [] else []
texts (k ∷ c ∷ rest) =
    let next = texts rest in
    let others = texts (c ∷ rest) in
    if k == 3 then add_char c next else if k == 1 then [] ∷ others else others

abbrev source_rpc : Text → Text → Text → Text → Text → Text → Text → Rpc
source_rpc description max min owner ty units value_type = dict (
    member (codes "default") (string (codes "true")) (
      member (codes "description") (string description) (
        member (codes "max") (string max) (
          member (codes "min") (string min) (
            member (codes "owner") (string owner) (
              member (codes "type") (string ty) (
                member (codes "units") (string units)
                  (member (codes "value_type") (string value_type) empty))))))))

sources : List Text → Members
sources (name ∷ description ∷ max ∷ min ∷ owner ∷ ty ∷ units ∷ value_type ∷ more) =
    member name (source_rpc description max min owner ty units value_type) (sources more)
sources _ = empty

abbrev of_object : Bytes → Option Rpc
of_object [] = none
of_object (b ∷ bs) = some (dict (member (codes "datasources") (dict (sources (texts bs))) empty))

-- No bound is told from another here, and a text is not cut.
abbrev library : Libraries
library = record {
  crc32 = λ bs v. (v + sum bs) % 2 ^ 32;
  dumps = λ m. 123 ∷ entries m;
  of_string = of_object;
  float_of_string = λ t. some 0;
  cuts = λ sep t. t ∷ [];
}

library-Checksums : Checksums library
library-Checksums = record {
  append = λ a b v. omega (arith, sum-append a b);
  small = λ a v. omega arith;
}

texts-end : (rest : Bytes) → texts (1 ∷ rest) ≡ [] ∷ texts rest
unfolding texts
texts-end [] = refl
texts-end (b ∷ rest) = refl

texts-chars : (t : Text) (rest : Bytes) → texts (chars t rest) ≡ t ∷ texts rest
unfolding texts chars
texts-chars [] rest = texts-end rest
texts-chars (c ∷ cs) rest = ap (add_char c) (texts-chars cs rest)

texts-fields : (ts : List Text) (rest : Bytes) → texts (fields ts rest) ≡ ts ++ texts rest
unfolding fields
texts-fields [] rest = refl
texts-fields (t ∷ ts) rest =
    texts-chars t (fields ts rest) ∙ ap (λ us. t ∷ us) (texts-fields ts rest)

chars-append : (t : Text) (a b : Bytes) → chars t (a ++ b) ≡ chars t a ++ b
unfolding chars
chars-append [] a b = refl
chars-append (c ∷ cs) a b = ap (λ t. 3 ∷ c ∷ t) (chars-append cs a b)

fields-append : (ts : List Text) (a b : Bytes) → fields ts (a ++ b) ≡ fields ts a ++ b
unfolding fields
fields-append [] a b = refl
fields-append (t ∷ ts) a b = ap (chars t) (fields-append ts a b) ∙ chars-append t (fields ts a) b

-- Some metadata are not empty bytes, and end with a brace.
entries_snoc : (ms : List (Text × Metadata)) → (xs : Bytes) × (entries ms ≡ xs ++ 125 ∷ [])
unfolding entries
entries_snoc [] = ([], refl)
entries_snoc ((name, m) ∷ ms) =
    let (xs, e) = entries_snoc ms in
    (
      fields (texts_of name m) xs,
      ap (fields (texts_of name m)) e ∙ fields-append (texts_of name m) xs (125 ∷ []),
    )

sources-entries :
    (ds : List DataSource) → sources (texts (entries (combined_of ds))) ≡ members_of ds
unfolding entries metadata_of texts sources
sources-entries [] = refl
sources-entries (d ∷ ds) =
    let ts = texts_of d.name (metadata_of d) in
    ap sources (texts-fields ts (entries (combined_of ds)))
    ∙ ap (member d.name (rpc_of d)) (sources-entries ds)

trimmed_braces : (xs : Bytes) → trim_nulls (123 ∷ (xs ++ 125 ∷ [])) ≡ 123 ∷ (xs ++ 125 ∷ [])
unfolding trim_nulls
trimmed_braces xs =
    let backwards = reverse-append (123 ∷ xs) (125 ∷ []) in
    ap (λ t. reverse (drop_nulls t)) backwards
    ∙ ap reverse (sym backwards)
    ∙ reverse-reverse (123 ∷ (xs ++ 125 ∷ []))

library-Json : Json library
library-Json = record {
  parsed = λ ds up distinct.
      ap (λ ms. some (dict (member (codes "datasources") (dict ms) empty))) (sources-entries ds);
  trimmed = λ ds.
      (let (xs, e) = entries_snoc (combined_of ds) in
        ap (λ t. trim_nulls (123 ∷ t)) e ∙ trimmed_braces xs ∙ ap (λ t. 123 ∷ t) (sym e));
}

abbrev source : Text → Value → DataSource
source n v = record {
  name = n;
  value = v;
  description = [];
  units = [];
  ty = codes "gauge";
  owner = codes "host";
  min_val = [];
  max_val = [];
}

abbrev plugin : Api
plugin = record {
  datasources = source (codes "b") (int64 (pos 7)) ∷ source (codes "a") (float 9) ∷ [];
  content = 1 ∷ 2 ∷ 3 ∷ [];
  position = 3;
}

abbrev reader : Reader
reader = record { last_data_crc = 1; last_metadata_crc = 0; cached_datasources = [] }

abbrev readable : (n : Text) (v : Value) → Fits v → IsReadable library (source n v)
unfolding ds_ty_of_string owner_of_string text_eq to_lower
readable n v fits = record {
  ty = gauge;
  owner = host;
  min = 0;
  max = 0;
  ty_read = refl;
  owner_read = refl;
  min_read = refl;
  max_read = refl;
  value_fits = fits;
}

plugin_readable : AllReadable library (sort_by_name plugin.datasources)
unfolding sort_by_name insert text_leb
plugin_readable =
    (readable (codes "a") (float 9) tt, (readable (codes "b") (int64 (pos 7)) (omega arith), tt))

update-Read_example :
    ((update library 5 plugin).0 ≡ ok tt)
    × ((read_payload library (update library 5 plugin).1.content reader).0
        ≡ ok (5, as_read library (sort_by_name plugin.datasources) plugin_readable))
unfolding sort_by_name insert text_leb sum entries fields chars metadata_of text_eq encode
update-Read_example =
    update-Read library 5 plugin reader plugin_readable library-Checksums library-Json (omega arith)
      (omega arith, (omega arith, tt)) (refl, (refl, tt)) (omega arith) (omega arith)
      (refl, λ h. absurd (cc h))
