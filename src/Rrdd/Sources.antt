-- ===== src/Rrdd/Sources.antt =====
-- rrdd.py: the order of the data sources in a file, that of their names.
use xen_api.Base.{
  Bool, true, false, List, [], ◌∷◌, ◌≡◌, refl, ltb, ◌==◌, if◌then◌else◌, Bool-cases, inl, inr,
  arith,
}
use xen_api.Base.Utf8.{Text}
use xen_api.Rrdd.Types.{DataSource}

-- `a <= b` for texts
unfoldable pub text_leb : Text → Text → Bool
text_leb [] t = true
text_leb (c ∷ s) [] = false
text_leb (c ∷ s) (d ∷ t) =
    let rest = text_leb s t in if ltb c d then true else if c == d then rest else false

unfoldable pub insert : DataSource → List DataSource → List DataSource
insert d [] = d ∷ []
insert d (e ∷ es) =
    let rest = insert d es in if text_leb (d.name) (e.name) then d ∷ e ∷ es else e ∷ rest

-- `sorted(datasources, key=lambda source: source.name)`
unfoldable pub sort_by_name : List DataSource → List DataSource
sort_by_name [] = []
sort_by_name (d ∷ ds) = insert d (sort_by_name ds)

-- Every name is at most the next one.
abbrev pub Ascending : List DataSource → Type 0
Ascending [] = Unit
Ascending (d ∷ []) = Unit
Ascending (d ∷ e ∷ es) = (text_leb (d.name) (e.name) ≡ true) × Ascending (e ∷ es)

text_leb_total : (s t : Text) → text_leb s t ≡ false → text_leb t s ≡ true
unfolding text_leb
text_leb_total [] t h = absurd (ground arith)
text_leb_total (c ∷ s) [] h = refl
text_leb_total (c ∷ s) (d ∷ t) h = let rest = text_leb_total s t in ground (arith, rest)

insert-Ascending : (d : DataSource) (ds : List DataSource) → Ascending ds → Ascending (insert d ds)
unfolding insert
insert-Ascending d [] h = tt
insert-Ascending d (e ∷ []) h = elim (Bool-cases (text_leb (d.name) (e.name))) [
  | inl le ↦ rw le (le, tt)
  | inr gt ↦ rw gt (text_leb_total (d.name) (e.name) gt, tt)
]
insert-Ascending d (e ∷ f ∷ es) (first, h) = elim (Bool-cases (text_leb (d.name) (e.name))) [
  | inl le ↦ rw le (le, (first, h))
  | inr gt ↦ rw gt (go (insert-Ascending d (f ∷ es) h) (text_leb_total (d.name) (e.name) gt))
]
  where
    go :
        Ascending (insert d (f ∷ es))
        → text_leb (e.name) (d.name) ≡ true
        → Ascending (e ∷ insert d (f ∷ es))
    go rest le = elim (Bool-cases (text_leb (d.name) (f.name))) [
      | inl lf ↦ rw lf (le, (rw lf at rest))
      | inr gf ↦ rw gf (first, (rw gf at rest))
    ]

pub sort_by_name-Ascending : (ds : List DataSource) → Ascending (sort_by_name ds)
unfolding sort_by_name
sort_by_name-Ascending [] = tt
sort_by_name-Ascending (d ∷ ds) = insert-Ascending d (sort_by_name ds) (sort_by_name-Ascending ds)
