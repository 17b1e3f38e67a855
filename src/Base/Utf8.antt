-- ===== src/Base/Utf8.antt =====
-- `str.encode("utf-8")` and `bytes.decode("utf-8")`: a text is the list of its code points.
use mathlib.Core.Option
use xen_api.Base.Tests.{ltb, leb, ◌==◌, if◌then◌else◌}
use xen_api.Base.Bytes.{Bytes}
use Prim.Native.Nat.{ℕ, zero, suc, ◌+◌, ◌-◌, ◌*◌, ◌/◌, ◌%◌}
use mathlib.Core.Bool.{Bool, ◌&&◌, ◌||◌}
use mathlib.Core.Option.{Option, none, some}
use mathlib.Core.List.{List, [], ◌∷◌, ◌++◌}

abbrev pub Text : Type 0
Text = List ℕ

unfoldable pub encode_char : ℕ → Bytes
encode_char c =
    if ltb c 0x80
    then c ∷ []
    else if ltb c 0x800
    then (0xC0 + c / 64) ∷ (0x80 + c % 64) ∷ []
    else if ltb c 0x10000
    then (0xE0 + c / 4096) ∷ (0x80 + c / 64 % 64) ∷ (0x80 + c % 64) ∷ []
    else (0xF0 + c / 262144) ∷ (0x80 + c / 4096 % 64) ∷ (0x80 + c / 64 % 64) ∷ (0x80 + c % 64) ∷ []

unfoldable pub utf8_encode : Text → Bytes
unfolding encode_char
utf8_encode [] = []
utf8_encode (c ∷ cs) = encode_char c ++ utf8_encode cs

-- A scalar value that needs as many bytes as it took, and is no surrogate.
is_scalar : ℕ → ℕ → Bool
is_scalar least c = leb least c && leb c 0x10FFFF && (ltb c 0xD800 || leb 0xE000 c)

-- `need` more bytes belong to the character whose bits so far are `acc`.
decode_chars : ℕ → ℕ → ℕ → Bytes → Option Text
decode_chars zero acc least [] = some []
decode_chars (suc need) acc least [] = none
decode_chars zero acc least (b ∷ bs) =
    let one = Option.map (λ t. b ∷ t) (decode_chars 0 0 0 bs) in
    let two = decode_chars 1 (b - 0xC0) 0x80 bs in
    let three = decode_chars 2 (b - 0xE0) 0x800 bs in
    let four = decode_chars 3 (b - 0xF0) 0x10000 bs in
    if ltb b 0x80
    then one
    else if ltb b 0xC0
    then none
    else if ltb b 0xE0
    then two
    else if ltb b 0xF0
    then three
    else if ltb b 0xF8
    then four
    else none
decode_chars (suc need) acc least (b ∷ bs) =
    let c = acc * 64 + (b - 0x80) in
    let more = decode_chars need c least bs in
    let done = Option.map (λ t. c ∷ t) more in
    if leb 0x80 b && ltb b 0xC0
    then (if need == 0 then (if is_scalar least c then done else none) else more)
    else none

unfoldable pub utf8_decode : Bytes → Option Text
unfolding decode_chars is_scalar
utf8_decode bs = decode_chars 0 0 0 bs
