-- ===== src/Base/Utf8.antt =====
-- `std::str::from_utf8`: which byte strings are UTF-8 (the Unicode standard, table 3-7).
use bobr.Base.Tests.{ltb, leb, ◌==◌, if◌then◌else◌}
use Prim.Native.Nat.{ℕ, zero, suc}
use mathlib.Core.Bool.{Bool, true, false, ◌&&◌}
use mathlib.Core.List.{List, [], ◌∷◌}

abbrev within : ℕ → ℕ → ℕ → Bool
within lo hi b = leb lo b && leb b hi

-- Between two characters; inside one, with the range of the next byte and the count of those
-- that follow it; or after a byte that starts no character.
pub data State : Type 0 where
  start invalid : State
  more : ℕ → ℕ → ℕ → State

abbrev lead : ℕ → State
lead b =
    if ltb b 0x80
    then start
    else if within 0xc2 0xdf b
    then more 0 0x80 0xbf
    else if b == 0xe0
    then more 1 0xa0 0xbf
    else if b == 0xed
    then more 1 0x80 0x9f
    else if within 0xe1 0xef b
    then more 1 0x80 0xbf
    else if b == 0xf0
    then more 2 0x90 0xbf
    else if b == 0xf4
    then more 2 0x80 0x8f
    else if within 0xf1 0xf3 b
    then more 2 0x80 0xbf
    else invalid

is_utf8_from : State → List ℕ → Bool
is_utf8_from start [] = true
is_utf8_from start (b ∷ bs) = is_utf8_from (lead b) bs
is_utf8_from invalid bs = false
is_utf8_from (more n lo hi) [] = false
is_utf8_from (more zero lo hi) (b ∷ bs) = within lo hi b && is_utf8_from start bs
is_utf8_from (more (suc n) lo hi) (b ∷ bs) = within lo hi b && is_utf8_from (more n 0x80 0xbf) bs

unfoldable pub is_utf8 : List ℕ → Bool
unfolding is_utf8_from
is_utf8 bs = is_utf8_from start bs
