-- ===== src/Extauth/KeyValue.antt =====
-- python3/plugins/extauth-hook-AD.py: the class `KeyValueConfig`, a file of keys and values in lines.
pub mod Configure
pub mod Entries
pub mod Lines
use xen_api.Base.{
  ℕ, suc, ◌+◌, Bool, true, false, Option, none, some, List, [], ◌∷◌, ◌++◌, ◌||◌, map, ◌==◌,
  if◌then◌else◌,
}
use xen_api.Base.Dict.{assign, has_key}
use xen_api.Base.Bytes.{codes, bytes_eq as text_eq}
use xen_api.Base.Utf8.{Text}
use xen_api.Base.Words.{strip, is_space, decimal}
use xen_api.Base.Words.Split.{is_empty, starts_with, split_on, split_words, lines_of}

-- An OrderedDict of texts: the entries in the order in which their keys were added.
abbrev pub Values : Type 0
Values = List (Text × Text)

abbrev pub special_line_prefix : Text
special_line_prefix = codes "__key_value_config_sp_line_prefix_"

unfoldable pub is_special_line : Text → Bool
is_special_line line = starts_with special_line_prefix line

unfoldable pub is_comment_line : Text → Bool
is_comment_line line = starts_with (codes "#") line

-- `sep.isspace()`
unfoldable pub all_space : Text → Bool
all_space [] = false
all_space (c ∷ []) = is_space c
all_space (c ∷ d ∷ cs) = let rest = all_space (d ∷ cs) in if is_space c then rest else false

-- `self._sep`: none where the number and the type of spaces are ignored
unfoldable pub effective_sep : Text → Option Text
effective_sep sep = if all_space sep then none else some sep

unfoldable pub split_line : Option Text → Text → List Text
split_line none line = split_words line
split_line (some sep) line = split_on sep line

-- `key, value = item[0].strip(), item[1].strip()`, where the line has two items
abbrev pub pair_of : List Text → Option (Text × Text)
pair_of (k ∷ v ∷ []) = some (strip k, strip v)
pair_of _ = none

unfoldable pub parse_pair : Option Text → Text → Option (Text × Text)
unfolding split_line
parse_pair sep line = pair_of (split_line sep line)

-- A unique key for a line that is no key and value.
unfoldable pub sp_key : ℕ → Text
sp_key idx = special_line_prefix ++ decimal idx

abbrev pub load_pair : Option (Text × Text) → ℕ → Text → Values → Values
load_pair none idx line values = assign (sp_key idx) line values
load_pair (some (k, v)) idx line values =
    if has_key k values then assign (sp_key idx) line values else assign k v values

-- The body of the loop of `_load_values`.
unfoldable pub load_line : Option Text → ℕ → Text → Values → Values
load_line sep idx line values =
    if is_empty line
    then assign (sp_key idx) [] values
    else if is_comment_line line
    then assign (sp_key idx) line values
    else load_pair (parse_pair sep line) idx line values

-- for idx, line in enumerate(self._lines), from some index on
unfoldable pub load_values : Option Text → ℕ → List Text → Values → Values
load_values sep idx [] values = values
load_values sep idx (line ∷ lines) values =
    load_values sep (suc idx) lines (load_line sep idx line values)

-- `self._sep or " "`
abbrev pub shown_sep : Option Text → Text
shown_sep none = codes " "
shown_sep (some sep) = sep

-- `_apply_value`: the line of one entry
unfoldable pub apply_value : Option Text → Text × Text → Text
apply_value sep (k, v) = if is_special_line k then v else k ++ (shown_sep sep ++ v)

-- `_apply_to_cache`: all the lines
unfoldable pub apply_to_cache : Option Text → Values → List Text
apply_to_cache sep values = map (apply_value sep) values

-- `_update_key_value`, for the keys and values of a subclass
unfoldable pub update_all : List (Text × Text) → Values → Values
update_all [] values = values
update_all ((k, v) ∷ us) values = update_all us (assign k v values)

-- Universal newlines: a file that is open as text is read with a line feed for each end of a line.
newlines : Text → Text
newlines [] = []
newlines (c ∷ []) = (if c == 13 then 10 else c) ∷ []
newlines (c ∷ d ∷ cs) =
    let rest = newlines (d ∷ cs) in
    if c == 13 then (if d == 10 then rest else 10 ∷ rest) else c ∷ rest

-- The lines of a file as the constructor of `ADConfig` reads them.
unfoldable pub read_lines : Text → List Text
unfolding newlines
read_lines content = map strip (lines_of (newlines content))

-- The values that the constructor of a subclass leaves: those of the lines, and its updates.
unfoldable pub new_values : Text → List (Text × Text) → List Text → Values
new_values sep updates lines = update_all updates (load_values (effective_sep sep) 0 lines [])

-- What a subclass makes of the lines that are there: the constructor loads them and updates keys, and
-- `apply` writes them out.
unfoldable pub configure : Text → List (Text × Text) → List Text → List Text
unfolding new_values
configure sep updates lines = apply_to_cache (effective_sep sep) (new_values sep updates lines)
