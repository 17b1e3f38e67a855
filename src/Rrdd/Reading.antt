-- ===== src/Rrdd/Reading.antt =====
-- rrd_protocol_v2.ml: reading what stands at a known place of the file.
use xen_api.Base.{
  ℕ, ◌+◌, ◌≤◌, ◌<◌, ◌^◌, List, [], ◌∷◌, ◌++◌, ◌≡◌, refl, sym, ap, ◌∙◌, length, take, drop,
  length-append, append_assoc, arith, le→leb, lt→ltb, some, true,
}
use xen_api.Base.Bytes.{Bytes, encode, length-encode, decode-encode}
use xen_api.Base.Exec.{ok, pure, ◌>>=◌}
use xen_api.Base.Int.{pos, negsuc}
use xen_api.Rrdd.Types.{Value, float, int64, DataSource, Libraries}
use xen_api.Rrdd.Parse.{Owner, Ds, DsType, identity, ds_ty_of_string, owner_of_string}
use xen_api.Rrdd.Collecting.{bits_of, AllPackable, bits_of-small, values_of}
use xen_api.Rrdd.Layout.{concat, drop_exact, take_exact}
use xen_api.Rrdd.Reader.{Reader, Read, sub, get_uint, datasource_values, value_like, get_int32}

-- Some bytes stand at a place of a file.
pub record Stands (at : ℕ) (bs cs : Bytes) : Type 0 where
  pub front : Bytes
  pub rest : Bytes
  pub whole : cs ≡ front ++ (bs ++ rest)
  pub place : at ≡ length front

pub sub-Stands :
    (start n : ℕ) (bs cs : Bytes) (r : Reader)
    → Stands start bs cs
    → n ≡ length bs
    → sub start n cs r ≡ (ok bs, r)
unfolding sub
sub-Stands start n bs cs r s e =
    let a = length-append (s.front) (bs ++ s.rest) in
    let b = length-append bs (s.rest) in
    let long : start + n ≤ length cs = rw (s.whole) (omega (arith, a, b, e, s.place)) in
    rw (le→leb (start + n) (length cs) long) (
      ap (λ x. (ok x, r))
        (ap (λ x. take n (drop start x)) (s.whole)
          ∙ ap (take n) (drop_exact (s.front) (bs ++ s.rest) start (s.place))
          ∙ take_exact bs (s.rest) n e))

pub get_uint-Stands :
    (width v start : ℕ) (cs : Bytes) (r : Reader)
    → Stands start (encode width v) cs
    → v < 256 ^ width
    → get_uint width start cs r ≡ (ok v, r)
get_uint-Stands width v start cs r s small =
    rw
      (
        sub-Stands start width (encode width v) cs r s (sym (length-encode width v)),
        decode-encode width v small,
      )
      refl

-- The parts of bytes that stand at a place
pub Stands-left : (at : ℕ) (xs ys cs : Bytes) → Stands at (xs ++ ys) cs → Stands at xs cs
Stands-left at xs ys cs s = record {
  front = s.front;
  rest = ys ++ s.rest;
  whole = s.whole ∙ ap (λ t. s.front ++ t) (append_assoc xs ys (s.rest));
  place = s.place;
}

pub Stands-right :
    (at at' : ℕ) (xs ys cs : Bytes)
    → Stands at (xs ++ ys) cs
    → at' ≡ at + length xs
    → Stands at' ys cs
Stands-right at at' xs ys cs s e = record {
  front = s.front ++ xs;
  rest = s.rest;
  whole =
      s.whole
      ∙ ap (λ t. s.front ++ t) (append_assoc xs ys (s.rest))
      ∙ sym (append_assoc (s.front) xs (ys ++ s.rest));
  place = omega (arith, e, s.place, length-append (s.front) xs);
}

-- The value fits the daemon's integers, which have a sign.
abbrev pub Fits : Value → Type 0
Fits (float bits) = Unit
Fits (int64 (pos n)) = n < 2 ^ 63
Fits (int64 (negsuc n)) = ⊥

-- What the daemon reads in the fields of a source, if it can read them
pub record IsReadable (lib : Libraries) (d : DataSource) : Type 0 where
  pub ty : DsType
  pub owner : Owner
  pub min : ℕ
  pub max : ℕ
  pub ty_read : ds_ty_of_string d.ty ≡ some ty
  pub owner_read : owner_of_string lib d.owner ≡ some owner
  pub min_read : (lib.float_of_string) d.min_val ≡ some min
  pub max_read : (lib.float_of_string) d.max_val ≡ some max
  pub value_fits : Fits d.value

abbrev pub AllReadable : Libraries → List DataSource → Type 0
AllReadable lib [] = Unit
AllReadable lib (d ∷ ds) = IsReadable lib d × AllReadable lib ds

-- The source as the daemon has it, with some value
abbrev pub seen : (lib : Libraries) (d : DataSource) → IsReadable lib d → Value → Owner × Ds
seen lib d p v = (
  p.owner,
  record {
    name = d.name;
    description = d.description;
    units = d.units;
    ty = p.ty;
    value = v;
    min = p.min;
    max = p.max;
    default = true;
    transform = identity;
  },
)

-- The values that the metadata alone give
abbrev pub blank_value : Value → Value
blank_value (float bits) = float 0
blank_value (int64 n) = int64 (pos 0)

abbrev pub blank : List (Owner × Ds) → List (Owner × Ds)
blank [] = []
blank ((owner, ds) ∷ rest) = (owner, record ds { value = blank_value (ds.value) }) ∷ blank rest

-- The sources as the metadata give them
abbrev pub described :
    (lib : Libraries) (ds : List DataSource) → AllReadable lib ds → List (Owner × Ds)
described lib [] ps = []
described lib (d ∷ ds) ps = seen lib d ps.0 (blank_value (d.value)) ∷ described lib ds ps.1

-- The sources as a reader has them
abbrev pub as_read :
    (lib : Libraries) (ds : List DataSource) → AllReadable lib ds → List (Owner × Ds)
as_read lib [] ps = []
as_read lib (d ∷ ds) ps = seen lib d ps.0 (d.value) ∷ as_read lib ds ps.1

-- One source, and then the others
abbrev reads : ℕ → Bytes → Owner → Ds → Value → Read (List (Owner × Ds)) → Read (List (Owner × Ds))
reads start cs owner d v rest = get_uint 8 start cs >>= λ bits.
    rest >>= λ others. pure ((owner, record d { value = value_like v bits }) ∷ others)

reads-blank :
    (start : ℕ) (cs : Bytes) (owner : Owner) (d : Ds) (v : Value) (rest : Read (List (Owner × Ds)))
    → reads start cs owner d v rest ≡ reads start cs owner d (blank_value v) rest
reads-blank start cs owner d (float b) rest = refl
reads-blank start cs owner d (int64 n) rest = refl

-- What the values were before does not matter.
datasource_values-blank :
    (start : ℕ) (ds : List (Owner × Ds)) (cs : Bytes)
    → datasource_values start ds cs ≡ datasource_values start (blank ds) cs
unfolding datasource_values
datasource_values-blank start [] cs = refl
datasource_values-blank start ((owner, d) ∷ ds) cs =
    reads-blank start cs owner d (d.value) (datasource_values (start + 8) ds cs)
    ∙ ap (reads start cs owner d (blank_value (d.value)))
        (datasource_values-blank (start + 8) ds cs)

value_like-bits : (v : Value) → Fits v → value_like (blank_value v) (bits_of v) ≡ v
value_like-bits (float bits) h = refl
value_like-bits (int64 (pos n)) h = rw (lt→ltb n (2 ^ 63) h) refl
value_like-bits (int64 (negsuc n)) h = absurd h

described-Stands :
    (lib : Libraries) (start : ℕ) (ds : List DataSource) (ps : AllReadable lib ds) (cs : Bytes)
    (r : Reader)
    → Stands start (concat (values_of ds)) cs
    → AllPackable ds
    → datasource_values start (described lib ds ps) cs r ≡ (ok (as_read lib ds ps), r)
unfolding datasource_values
described-Stands lib start [] ps cs r s packs = refl
described-Stands lib start (d ∷ ds) (p, ps) cs r s (pack, packs) =
    let here = encode 8 (bits_of (d.value)) in
    let first =
      get_uint-Stands 8 (bits_of (d.value)) start cs r
        (Stands-left start here (concat (values_of ds)) cs s) (bits_of-small (d.value) pack) in
    let others =
      described-Stands lib (start + 8) ds ps cs r
        (Stands-right start (start + 8) here (concat (values_of ds)) cs s
          (ap (λ n. start + n) (sym (length-encode 8 (bits_of (d.value))))))
        packs in
    rw (first, others, value_like-bits (d.value) (p.value_fits)) refl

-- The values are read for sources that are as the metadata give them, whatever values they had.
pub datasource_values-Stands :
    (lib : Libraries) (start : ℕ) (ds : List DataSource) (ps : AllReadable lib ds)
    (cached : List (Owner × Ds)) (cs : Bytes) (r : Reader)
    → blank cached ≡ described lib ds ps
    → Stands start (concat (values_of ds)) cs
    → AllPackable ds
    → datasource_values start cached cs r ≡ (ok (as_read lib ds ps), r)
datasource_values-Stands lib start ds ps cached cs r same s packs =
    ap (λ m. m r) (datasource_values-blank start cached cs)
    ∙ ap (λ k. datasource_values start k cs r) same
    ∙ described-Stands lib start ds ps cs r s packs

pub blank-described :
    (lib : Libraries) (ds : List DataSource) (ps : AllReadable lib ds)
    → blank (described lib ds ps) ≡ described lib ds ps
blank-described lib [] ps = refl
blank-described lib (d ∷ ds) (p, ps) = rw (blank_twice (d.value), blank-described lib ds ps) refl
  where
    blank_twice : (v : Value) → blank_value (blank_value v) ≡ blank_value v
    blank_twice (float b) = refl
    blank_twice (int64 n) = refl

-- A number below half its range has no sign.
pub get_int32-Stands :
    (v start : ℕ) (cs : Bytes) (r : Reader)
    → Stands start (encode 4 v) cs
    → v < 2 ^ 31
    → get_int32 (pos start) cs r ≡ (ok (pos v), r)
get_int32-Stands v start cs r s small =
    rw
      (
        sub-Stands start 4 (encode 4 v) cs r s (sym (length-encode 4 v)),
        decode-encode 4 v (omega arith),
        lt→ltb v (2 ^ 31) small,
      )
      refl
