-- ===== src/Rrdd/Collecting.antt =====
-- rrdd.py: what the loop of `update` collects.
use xen_api.Base.{
  ℕ, ◌%◌, ◌^◌, ◌<◌, Bool, false, some, List, [], ◌∷◌, ◌++◌, ◌||◌, ◌≡◌, refl, sym, ap, ◌∙◌,
  append_assoc, append-nil, arith, lt→ltb,
}
use xen_api.Base.Dict.{has_key, assign-absent, has_key-snoc}
use xen_api.Base.Bytes.{Bytes, encode, bytes_eq as text_eq}
use xen_api.Base.Int.{pos, negsuc}
use xen_api.Base.Utf8.{Text}
use xen_api.Rrdd.Types.{
  Value, float, int64, DataSource, Metadata, metadata_of, pack_data, Libraries,
}
use xen_api.Rrdd.Writer.{Collected, add_source, collect}
use xen_api.Rrdd.Layout.{concat}

-- The 64 bits of a value, and whether it has them
abbrev pub bits_of : Value → ℕ
bits_of (float bits) = bits
bits_of (int64 (pos n)) = n
bits_of (int64 (negsuc n)) = 0

abbrev pub Packable : Value → Type 0
Packable (float bits) = bits < 2 ^ 64
Packable (int64 (pos n)) = n < 2 ^ 64
Packable (int64 (negsuc n)) = ⊥

pub bits_of-small : (v : Value) → Packable v → bits_of v < 2 ^ 64
bits_of-small (float bits) h = h
bits_of-small (int64 (pos n)) h = h
bits_of-small (int64 (negsuc n)) h = absurd h

pack_data-Packable : (v : Value) → Packable v → pack_data v ≡ some (encode 8 (bits_of v))
unfolding pack_data
pack_data-Packable (float bits) h = refl
pack_data-Packable (int64 (pos n)) h = rw (lt→ltb n (2 ^ 64) h) refl
pack_data-Packable (int64 (negsuc n)) h = absurd h

-- What zlib and json promise: a checksum goes on over more bytes and has 32 bits.
pub record Checksums (lib : Libraries) : Type 0 where
  pub append : (a b : Bytes) (v : ℕ) → (lib.crc32) (a ++ b) v ≡ (lib.crc32) b ((lib.crc32) a v)
  pub small : (a : Bytes) (v : ℕ) → (lib.crc32) a v % 2 ^ 32 ≡ (lib.crc32) a v

abbrev pub values_of : List DataSource → List Bytes
values_of [] = []
values_of (d ∷ ds) = encode 8 (bits_of (d.value)) ∷ values_of ds

abbrev pub combined_of : List DataSource → List (Text × Metadata)
combined_of [] = []
combined_of (d ∷ ds) = (d.name, metadata_of d) ∷ combined_of ds

-- Every value can be packed, and no name stands twice, nor among some that are there.
abbrev pub AllPackable : List DataSource → Type 0
AllPackable [] = Unit
AllPackable (d ∷ ds) = Packable (d.value) × AllPackable ds

abbrev pub named : Text → List DataSource → Bool
named k [] = false
named k (d ∷ ds) = text_eq (d.name) k || named k ds

abbrev pub Distinct : List DataSource → Type 0
Distinct [] = Unit
Distinct (d ∷ ds) = (named (d.name) ds ≡ false) × Distinct ds

abbrev NewTo : List (Text × Metadata) → List DataSource → Type 0
NewTo m [] = Unit
NewTo m (d ∷ ds) = (has_key (d.name) m ≡ false) × NewTo m ds

NewTo-snoc :
    (m : List (Text × Metadata)) (k : Text) (v : Metadata) (ds : List DataSource)
    → NewTo m ds
    → named k ds ≡ false
    → NewTo (m ++ (k, v) ∷ []) ds
NewTo-snoc m k v [] new other = tt
NewTo-snoc m k v (d ∷ ds) (one, new) other = (
  has_key-snoc (d.name) k v m ∙ ground (arith, one, other),
  NewTo-snoc m k v ds new (ground (arith, other)),
)

NewTo-nil : (ds : List DataSource) → NewTo [] ds
unfolding has_key
NewTo-nil [] = tt
NewTo-nil (d ∷ ds) = (refl, NewTo-nil ds)

-- What is collected, where the checksum so far is that of some bytes
abbrev pub gathered : Libraries → Bytes → List DataSource → Collected → Collected
gathered lib p ds c = record {
  data_values = c.data_values ++ values_of ds;
  data_checksum = (lib.crc32) (p ++ concat (values_of ds)) 0;
  combined = c.combined ++ combined_of ds;
}

collect-gathered :
    (lib : Libraries) (p : Bytes) (ds : List DataSource) (c : Collected)
    → Checksums lib
    → c.data_checksum ≡ (lib.crc32) p 0
    → AllPackable ds
    → Distinct ds
    → NewTo (c.combined) ds
    → collect lib ds c ≡ some (gathered lib p ds c)
unfolding collect add_source
collect-gathered lib p [] c laws sum packs distinct new =
    rw (append-nil (c.data_values), append-nil p, append-nil (c.combined), ← sum) refl
collect-gathered lib p (d ∷ ds) c laws sum (pack, packs) (other, distinct) (one, new) =
    let value = encode 8 (bits_of (d.value)) in
    let next = add_source lib d value c in
    let step =
      collect-gathered lib (p ++ value) ds next laws
        (laws.small value (c.data_checksum)
          ∙ ap ((lib.crc32) value) sum
          ∙ sym (laws.append p value 0))
        packs distinct
        (rw (assign-absent (d.name) (metadata_of d) (c.combined) one)
          (NewTo-snoc (c.combined) (d.name) (metadata_of d) ds new other)) in
    rw (pack_data-Packable (d.value) pack) (
      step
      ∙ rw
          (
            assign-absent (d.name) (metadata_of d) (c.combined) one,
            append_assoc (c.data_values) (value ∷ []) (values_of ds),
            append_assoc p value (concat (values_of ds)),
            append_assoc (c.combined) ((d.name, metadata_of d) ∷ []) (combined_of ds),
          )
          refl)

pub collect-all :
    (lib : Libraries) (p : Bytes) (ds : List DataSource) (sum : ℕ)
    → Checksums lib
    → sum ≡ (lib.crc32) p 0
    → AllPackable ds
    → Distinct ds
    → collect lib ds (record { data_values = []; data_checksum = sum; combined = [] })
      ≡ some (record {
        data_values = values_of ds;
        data_checksum = (lib.crc32) (p ++ concat (values_of ds)) 0;
        combined = combined_of ds;
      })
collect-all lib p ds sum laws e packs distinct =
    collect-gathered lib p ds (record { data_values = []; data_checksum = sum; combined = [] }) laws
      e packs distinct (NewTo-nil ds)
