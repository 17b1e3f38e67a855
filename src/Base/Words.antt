-- ===== src/Base/Words.antt =====
-- Python's `str.strip`, `str.lower` and `int(s, base)`, over texts of ASCII characters.
pub mod Decimal
pub mod Split
use mathlib.Core.Option
use mathlib.Core.Bool.{Bool, true, false, not, ◌&&◌, ◌||◌}
use mathlib.Core.Option.{Option, none, some}
use mathlib.Core.List.{◌++◌, [], ◌∷◌, map, reverse}
use Prim.Native.Nat.{ℕ, zero, suc, ◌+◌, ◌-◌, ◌*◌, ◌/◌, ◌%◌}
use xen_api.Base.Tests.{leb, ltb, ◌==◌, if◌then◌else◌}
use xen_api.Base.Utf8.{Text}

unfoldable pub is_space : ℕ → Bool
is_space c = (leb 9 c && leb c 13) || (leb 28 c && leb c 32)

unfoldable pub lstrip : Text → Text
unfolding is_space
lstrip [] = []
lstrip (c ∷ cs) = let rest = lstrip cs in if is_space c then rest else c ∷ cs

unfoldable pub strip : Text → Text
unfolding lstrip
strip s = reverse (lstrip (reverse (lstrip s)))

unfoldable pub to_lower : ℕ → ℕ
to_lower c = if leb b'A' c && leb c b'Z' then c + 32 else c

abbrev pub lower : Text → Text
lower = map to_lower

-- The value of a digit in some base up to 16, or 99.
unfoldable pub digit_value : ℕ → ℕ
digit_value c =
    if leb b'0' c && leb c b'9'
    then c - b'0'
    else if leb b'a' c && leb c b'f'
    then c - b'a' + 10
    else if leb b'A' c && leb c b'F'
    then c - b'A' + 10
    else 99

-- Digits with single underscores between them. `after` says that a digit stands right before.
int_digits : ℕ → ℕ → Bool → Text → Option ℕ
int_digits base acc after [] = if after then some acc else none
int_digits base acc after (c ∷ cs) =
    let digit = int_digits base (acc * base + digit_value c) true cs in
    let underscore = int_digits base acc false cs in
    if c == b'_'
    then (if after then underscore else none)
    else if ltb (digit_value c) base
    then digit
    else none

-- The magnitude; base 16 may have the prefix `0x`, with an underscore behind it.
unsigned : ℕ → Text → Option ℕ
unsigned base (zero' ∷ x ∷ rest) =
    if (base == 16) && ((zero' == b'0') && (to_lower x == b'x'))
    then prefixed rest
    else int_digits base 0 false (zero' ∷ x ∷ rest)
  where
    prefixed : Text → Option ℕ
    prefixed (c ∷ cs) =
        if c == b'_' then int_digits base 0 false cs else int_digits base 0 false (c ∷ cs)
    prefixed [] = none
unsigned base s = int_digits base 0 false s

-- A sign, if the number is not zero, and a magnitude.
negative : Option ℕ → Option (Bool × ℕ)
negative none = none
negative (some n) = some (not (n == 0), n)

signed : ℕ → Text → Option (Bool × ℕ)
signed base [] = none
signed base (c ∷ cs) =
    if c == b'-'
    then negative (unsigned base cs)
    else Option.map (λ n. (false, n)) (unsigned base (if c == b'+' then cs else c ∷ cs))

-- `int(s, base)`, `none` for a ValueError
unfoldable pub int : ℕ → Text → Option (Bool × ℕ)
unfolding int_digits unsigned negative signed strip to_lower digit_value
int base s = signed base (strip s)

-- The text behind a prefix.
unfoldable pub behind : Text → Text → Option Text
behind [] s = some s
behind (p ∷ ps) [] = none
behind (p ∷ ps) (c ∷ cs) = let rest = behind ps cs in if p == c then rest else none

-- str(n)
unfoldable pub decimal_fuel : ℕ → ℕ → Text
decimal_fuel zero n = []
decimal_fuel (suc fuel) n =
    let rest = decimal_fuel fuel (n / 10) in
    let digit = b'0' + n % 10 in if ltb n 10 then digit ∷ [] else rest ++ digit ∷ []

unfoldable pub decimal : ℕ → Text
unfolding decimal_fuel
decimal n = decimal_fuel (suc n) n
