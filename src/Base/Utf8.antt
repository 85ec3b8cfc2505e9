-- ===== src/Base/Utf8.antt =====
-- `std::str::from_utf8`: whether a byte string is well-formed UTF-8 (the Unicode standard's table
-- 3-7), and the decimal text of a number.
use Prim.Native.Nat.{ℕ, zero, suc, ◌+◌, ◌/◌, ◌%◌}
use mathlib.Core.Bool.{Bool, true, false, ◌&&◌}
use mathlib.Core.List.{List, [], ◌∷◌, ◌++◌}
use diynamo.Base.Tests.{ltb, leb, ◌==◌, if◌then◌else◌}
use diynamo.Base.ByteStrings.{Bytes}

abbrev Ranges : Type 0
Ranges = List (ℕ × ℕ)

abbrev tail_byte : ℕ × ℕ
tail_byte = (0x80, 0xbf)

-- The ranges of the bytes that must follow a lead byte; a lead byte outside the table gets an
-- empty range.
following : ℕ → Ranges
following b =
    if leb b 0x7f
    then []
    else if leb 0xc2 b && leb b 0xdf
    then tail_byte ∷ []
    else if b == 0xe0
    then (0xa0, 0xbf) ∷ tail_byte ∷ []
    else if b == 0xed
    then (0x80, 0x9f) ∷ tail_byte ∷ []
    else if leb 0xe1 b && leb b 0xef
    then tail_byte ∷ tail_byte ∷ []
    else if b == 0xf0
    then (0x90, 0xbf) ∷ tail_byte ∷ tail_byte ∷ []
    else if leb 0xf1 b && leb b 0xf3
    then tail_byte ∷ tail_byte ∷ tail_byte ∷ []
    else if b == 0xf4
    then (0x80, 0x8f) ∷ tail_byte ∷ tail_byte ∷ []
    else (1, 0) ∷ []

utf8_from : Ranges → Bytes → Bool
utf8_from [] [] = true
utf8_from (r ∷ rs) [] = false
utf8_from [] (b ∷ s) = utf8_from (following b) s
utf8_from ((lo, hi) ∷ rs) (b ∷ s) = leb lo b && leb b hi && utf8_from rs s

unfoldable pub is_utf8 : Bytes → Bool
unfolding utf8_from following
is_utf8 s = utf8_from [] s

-- The digits of a number below 10 ^ fuel.
digits : ℕ → ℕ → Bytes
digits zero n = []
digits (suc fuel) n =
    let front = digits fuel (n / 10) in
    if ltb n 10 then (b'0' + n) ∷ [] else front ++ (b'0' + n % 10) ∷ []

-- `u16` as `Display` prints it: five digits suffice.
unfoldable pub decimal_u16 : ℕ → Bytes
unfolding digits
decimal_u16 n = digits 5 n

-- A number as `Display` prints it: it has no more digits than its successor's value.
unfoldable pub decimal : ℕ → Bytes
unfolding digits
decimal n = digits (suc n) n
