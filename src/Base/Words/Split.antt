-- ===== src/Base/Words/Split.antt =====
-- `str.split` with a separator and without, `str.splitlines` for line feeds, and `str.join`.
use xen_api.Base.Tests.{◌==◌, if◌then◌else◌}
use xen_api.Base.Lists.{length}
use xen_api.Base.Utf8.{Text}
use xen_api.Base.Words.{is_space, behind}
use Prim.Native.Nat.{ℕ, zero, suc, ◌-◌}
use mathlib.Core.Bool.{Bool, true, false}
use mathlib.Core.Option.{none, some}
use mathlib.Core.List.{List, [], ◌∷◌, ◌++◌}

abbrev pub is_empty : Text → Bool
is_empty [] = true
is_empty _ = false

-- `s.startswith(prefix)`
unfoldable pub starts_with : Text → Text → Bool
starts_with prefix s = elim (behind prefix s) [ none ↦ false | some _ ↦ true ]

-- The first part and the others; `skip` characters of a separator are still to be passed over.
unfoldable pub split_from : Text → ℕ → Text → Text × List Text
split_from sep skip [] = ([], [])
split_from sep (suc skip) (c ∷ cs) = split_from sep skip cs
split_from sep zero (c ∷ cs) =
    let (first, others) = split_from sep zero cs in
    let (next, later) = split_from sep (length sep - 1) cs in
    if starts_with sep (c ∷ cs) then ([], next ∷ later) else (c ∷ first, others)

-- `s.split(sep)`, for a separator that is not empty
unfoldable pub split_on : Text → Text → List Text
unfolding split_from
split_on sep s = let (first, others) = split_from sep 0 s in first ∷ others

-- A word that begins here, and the words behind it.
word_from : Text → Text × List Text
word_from [] = ([], [])
word_from (c ∷ cs) =
    let (word, words) = word_from cs in
    if is_space c then ([], if is_empty word then words else word ∷ words) else (c ∷ word, words)

-- `s.split()`
unfoldable pub split_words : Text → List Text
unfolding word_from
split_words s = let (word, words) = word_from s in if is_empty word then words else word ∷ words

-- The lines of a text, without their line feeds; one at the end of the text starts no line.
lines_from : Text → Text × List Text
lines_from [] = ([], [])
lines_from (c ∷ cs) =
    let (line, lines) = lines_from cs in
    if c == 10 then ([], if is_empty cs then lines else line ∷ lines) else (c ∷ line, lines)

unfoldable pub lines_of : Text → List Text
unfolding lines_from
lines_of s = if is_empty s then [] else (let (line, lines) = lines_from s in line ∷ lines)

-- `"\n".join(lines)`
unfoldable pub join_lines : List Text → Text
join_lines [] = []
join_lines (l ∷ []) = l
join_lines (l ∷ m ∷ ls) = l ++ 10 ∷ join_lines (m ∷ ls)
