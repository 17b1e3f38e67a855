-- ===== src/Usb/Policy.antt =====
-- python3/libexec/usb_scan.py: the class `Policy`, its file format and its check.
pub mod Lines
pub mod Check
pub mod Comments
use xen_api.Base.{
  ℕ, zero, suc, ◌+◌, Bool, true, false, not, Option, none, some, List, [], ◌∷◌, ◌++◌, ◌&&◌, ◌||◌,
  ltb, leb, ◌==◌, if◌then◌else◌, length,
}
use xen_api.Base.Bytes.{bytes_eq as text_eq, codes}
use xen_api.Base.Utf8.{Text}
use xen_api.Base.Words.{strip, lstrip, lower, to_lower, is_space}
use xen_api.Base.Exec.{Result, ok, err}
use xen_api.Usb.Types.{
  Failure, ◌>>=◌, DeviceKey, InterfaceKey, Interface, Device, lookup_key, hex_equal, is_empty,
  exits, unbound_local, id_vendor, id_product, bcd_device, interface_class, sub_class, protocol,
}

-- The tags of a rule. `prot` is for `protocol`, as in the file.
pub data Tag : Type 0 where
  class subclass prot vid pid rel : Tag

-- A rule is a dict: the action, and the tags in the order in which they were added.
pub record Rule : Type 0 where
  pub allow : Bool
  pub tags : List (Tag × Text)

-- `_KEY_MAP_DEVICE` and `_KEY_MAP_INTERFACE`
unfoldable pub key_map_device : Tag → Option DeviceKey
key_map_device vid = some id_vendor
key_map_device pid = some id_product
key_map_device rel = some bcd_device
key_map_device _ = none

unfoldable pub key_map_interface : Tag → Option InterfaceKey
key_map_interface class = some interface_class
key_map_interface subclass = some sub_class
key_map_interface prot = some protocol
key_map_interface _ = none

abbrev pub spelling : Tag → Text
spelling class = codes "class"
spelling subclass = codes "subclass"
spelling prot = codes "prot"
spelling vid = codes "vid"
spelling pid = codes "pid"
spelling rel = codes "rel"

unfoldable pub same_tag : Tag → Tag → Bool
same_tag a b = text_eq (spelling a) (spelling b)

-- `name in rule`
unfoldable pub in_rule : Tag → List (Tag × Text) → Bool
in_rule t [] = false
in_rule t ((u, v) ∷ ts) = same_tag t u || in_rule t ts

abbrev pub hex_length : Tag → ℕ
hex_length class = 2
hex_length subclass = 2
hex_length prot = 2
hex_length vid = 4
hex_length pid = 4
hex_length rel = 4

unfoldable pub check_hex_length : Tag → Text → Bool
check_hex_length t value = length value == hex_length t

-- The text behind a word, which matches in either case.
unfoldable pub strip_word : Text → Text → Option Text
strip_word [] s = some s
strip_word (p ∷ ps) [] = none
strip_word (p ∷ ps) (c ∷ cs) = let rest = strip_word ps cs in if p == to_lower c then rest else none

-- The alternatives of the pattern, in its order.
strip_tags : List Tag → Text → Option (Tag × Text)
strip_tags [] s = none
strip_tags (t ∷ ts) s = elim (strip_word (spelling t) s) [
  | none ↦ strip_tags ts s
  | some r ↦ some (t, r)
]

unfoldable pub strip_tag : Text → Option (Tag × Text)
unfolding strip_tags
strip_tag = strip_tags (class ∷ subclass ∷ prot ∷ vid ∷ pid ∷ rel ∷ [])

is_hex : ℕ → Bool
is_hex c = (leb b'0' c && leb c b'9') || (leb b'a' (to_lower c) && leb (to_lower c) b'f')

-- `[0-9a-f]*`, greedy: what it takes, in lower case, and the text behind.
unfoldable pub hex_digits : Text → Text × Text
unfolding is_hex
hex_digits [] = ([], [])
hex_digits (c ∷ cs) =
    let (value, rest) = hex_digits cs in
    if is_hex c then (to_lower c ∷ value, rest) else ([], c ∷ cs)

-- `=\s*([0-9a-f]+)`, behind `\s*`
match_value : Tag → Text → Option (Tag × Text × Text)
match_value t [] = none
match_value t (c ∷ cs) =
    let (value, rest) = hex_digits (lstrip cs) in
    if (c == b'=') && not (is_empty value) then some (t, value, rest) else none

with_tag : Option (Tag × Text) → Option (Tag × Text × Text)
with_tag none = none
with_tag (some (t, s)) = match_value t (lstrip s)

-- `_PATTERN` at the start of a text: the tag, the value and the text behind.
unfoldable pub match_pair : Text → Option (Tag × Text × Text)
unfolding with_tag match_value
match_pair s = with_tag (strip_tag (lstrip s))

-- Step 4 of `parse_line`. `re.finditer` would also find a pair further on; the text before it, or what
-- is left where there is none, ends the program either way.
unfoldable pub parse_pairs : ℕ → List (Tag × Text) → Text → Result Failure (List (Tag × Text))
parse_pairs zero tags [] = ok tags
parse_pairs zero tags (c ∷ cs) = err exits
parse_pairs (suc fuel) tags [] = ok tags
parse_pairs (suc fuel) tags (c ∷ cs) = elim (match_pair (c ∷ cs)) [
  | none ↦ err exits
  | some (t, value, rest) ↦
      if check_hex_length t value && not (in_rule t tags)
      then parse_pairs fuel (tags ++ (t, value) ∷ []) rest
      else err exits
]

-- `line[0:line.find("#")]`, and whether the line starts with `#`
unfoldable pub cut_comment : Text → Text
cut_comment [] = []
cut_comment (c ∷ cs) = let rest = cut_comment cs in if c == b'#' then [] else c ∷ rest

abbrev pub starts_with_hash : Text → Bool
starts_with_hash [] = false
starts_with_hash (c ∷ cs) = c == b'#'

-- The parts of `line.split(":")`: the first, and the others.
unfoldable pub split_colon : Text → Text × List Text
split_colon [] = ([], [])
split_colon (c ∷ cs) =
    let (first, others) = split_colon cs in
    if c == b':' then ([], first ∷ others) else (c ∷ first, others)

unfoldable pub parse_action : Text → Option Bool
parse_action action =
    if text_eq (lower action) (codes "allow")
    then some true
    else if text_eq (lower action) (codes "deny")
    then some false
    else none

-- Step 4 behind a known action.
unfoldable pub rule_with : Option Bool → Text → Result Failure (Option Rule)
rule_with none target = err exits
rule_with (some allow) target = parse_pairs (length target) [] target >>= λ tags.
    ok (some (record { allow = allow; tags = tags }))

unfoldable pub parse_rule : Text → Text → Result Failure (Option Rule)
parse_rule action target = rule_with (parse_action (strip action)) (strip target)

-- Step 2. Where the line has not exactly one colon it ends the program, unless nothing is left of it but
-- space: then `action` has no value when step 3 reads it.
unfoldable pub parse_parts : Text → Text × List Text → Result Failure (Option Rule)
parse_parts line (action, target ∷ []) = parse_rule action target
parse_parts line (_, _) = if is_empty (strip line) then err unbound_local else err exits

-- `parse_line`: no rule, or the rule that it appends.
unfoldable pub parse_line : Text → Result Failure (Option Rule)
parse_line line =
    if is_empty (strip line)
    then ok none
    else if starts_with_hash line
    then ok none
    else parse_parts (cut_comment line) (split_colon (cut_comment line))

-- The lines of the policy file, in order.
unfoldable pub parse_policy : List Text → Result Failure (List Rule)
parse_policy [] = ok []
parse_policy (line ∷ lines) = parse_line line >>= λ found.
    parse_policy lines >>= λ rules. ok (elim found [ none ↦ rules | some r ↦ r ∷ rules ])

-- The tags of a rule that speak of the device, and then those that speak of the interface.
unfoldable pub match_device_tags : List (Tag × Text) → Device → Result Failure Bool
match_device_tags [] d = ok true
match_device_tags ((t, value) ∷ ts) d =
    let rest = match_device_tags ts d in
    elim (key_map_device t) [
      | none ↦ rest
      | some k ↦ lookup_key (d.props k) >>= λ p. if hex_equal value p then rest else ok false
    ]

unfoldable pub match_interface_tags : List (Tag × Text) → Interface → Result Failure Bool
match_interface_tags [] i = ok true
match_interface_tags ((t, value) ∷ ts) i =
    let rest = match_interface_tags ts i in
    elim (key_map_interface t) [
      | none ↦ rest
      | some k ↦ lookup_key (i.props k) >>= λ p. if hex_equal value p then rest else ok false
    ]

unfoldable pub match_device_interface : Rule → Device → Interface → Result Failure Bool
match_device_interface r d i = match_device_tags r.tags d >>= λ device_matches.
    if device_matches then match_interface_tags r.tags i else ok false

-- The inner loop of `check`: the first rule that matches decides, and no match denies.
unfoldable pub check_interface : List Rule → Device → Interface → Result Failure Bool
check_interface [] d i = ok false
check_interface (r ∷ rs) d i =
    let rest = check_interface rs d i in
    match_device_interface r d i >>= λ matched. if matched then ok r.allow else rest

-- The outer loop: the first interface that is denied decides.
unfoldable pub check_interfaces : List Rule → Device → List Interface → Result Failure Bool
check_interfaces rules d [] = ok true
check_interfaces rules d (i ∷ is) =
    let rest = check_interfaces rules d is in
    check_interface rules d i >>= λ allowed. if allowed then rest else ok false

unfoldable pub check : List Rule → Device → Result Failure Bool
check rules d = check_interfaces rules d d.interfaces
