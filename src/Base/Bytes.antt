-- ===== src/Base/Bytes.antt =====
-- Bytes and words: what `u8` masks and shifts do, and the big-endian bytes of a word.
use bobr.Base.Tests.{◌==◌, ==_iff, Bool-cases}
use bobr.Base.Lists.{length, All, length-reverse, All-reverse}
use Prim.Native.Nat.{ℕ, zero, suc, ◌+◌, ◌*◌, ◌/◌, ◌%◌, ◌^◌, ◌<◌, bit_and, bit_or}
use mathlib.Core.Path.{◌≡◌, refl, ap, ◌∙◌}
use mathlib.Core.Bool.{Bool, true, ◌&&◌}
use mathlib.Core.Logic.{inl, inr}
use mathlib.Core.List.{List, [], ◌∷◌, reverse, reverse-reverse}
use native.Mathlib.Omega.{arith}

abbrev pub IsByte : ℕ → Type 0
IsByte b = b < 256

abbrev pub IsU64 : ℕ → Type 0
IsU64 v = v < 2 ^ 64

-- `to_le_bytes` and `to_be_bytes` of a word of `n` bytes.
abbrev pub to_le_bytes : ℕ → ℕ → List ℕ
to_le_bytes zero v = []
to_le_bytes (suc n) v = (v % 256) ∷ to_le_bytes n (v / 256)

abbrev pub from_le_bytes : List ℕ → ℕ
from_le_bytes [] = 0
from_le_bytes (b ∷ bs) = b + 256 * from_le_bytes bs

unfoldable pub to_be_bytes : ℕ → ℕ → List ℕ
to_be_bytes n v = reverse (to_le_bytes n v)

unfoldable pub from_be_bytes : List ℕ → ℕ
from_be_bytes bs = from_le_bytes (reverse bs)

from_le_bytes-to_le_bytes : (n v : ℕ) → v < 256 ^ n → from_le_bytes (to_le_bytes n v) ≡ v
from_le_bytes-to_le_bytes zero v h = omega arith
from_le_bytes-to_le_bytes (suc n) v h =
    omega (arith, from_le_bytes-to_le_bytes n (v / 256) (omega arith))

to_le_bytes-from_le_bytes :
    (bs : List ℕ) → All IsByte bs → to_le_bytes (length bs) (from_le_bytes bs) ≡ bs
to_le_bytes-from_le_bytes [] h = refl
to_le_bytes-from_le_bytes (b ∷ bs) h =
    let low : (b + 256 * from_le_bytes bs) % 256 ≡ b = omega arith in
    let high : (b + 256 * from_le_bytes bs) / 256 ≡ from_le_bytes bs = omega arith in
    cc (low, high, to_le_bytes-from_le_bytes bs h.1)

from_le_bytes-lt :
    (n : ℕ) (bs : List ℕ) → length bs ≡ n → All IsByte bs → from_le_bytes bs < 256 ^ n
from_le_bytes-lt zero [] e h = omega arith
from_le_bytes-lt (suc n) [] e h = absurd (omega arith)
from_le_bytes-lt zero (b ∷ bs) e h = absurd (omega arith)
from_le_bytes-lt (suc n) (b ∷ bs) e h = omega (arith, from_le_bytes-lt n bs (omega arith) h.1)

length-to_le_bytes : (n v : ℕ) → length (to_le_bytes n v) ≡ n
length-to_le_bytes zero v = refl
length-to_le_bytes (suc n) v = ap suc (length-to_le_bytes n (v / 256))

to_le_bytes-IsByte : (n v : ℕ) → All IsByte (to_le_bytes n v)
to_le_bytes-IsByte zero v = tt
to_le_bytes-IsByte (suc n) v = (omega arith, to_le_bytes-IsByte n (v / 256))

pub from_be_bytes-to_be_bytes : (n v : ℕ) → v < 256 ^ n → from_be_bytes (to_be_bytes n v) ≡ v
unfolding to_be_bytes from_be_bytes
from_be_bytes-to_be_bytes n v h = rw reverse-reverse (from_le_bytes-to_le_bytes n v h)

pub to_be_bytes-from_be_bytes :
    (n : ℕ) (bs : List ℕ) → length bs ≡ n → All IsByte bs → to_be_bytes n (from_be_bytes bs) ≡ bs
unfolding to_be_bytes from_be_bytes
to_be_bytes-from_be_bytes n bs e h =
    rw (← e, ← length-reverse bs)
      (ap reverse (to_le_bytes-from_le_bytes (reverse bs) (All-reverse IsByte bs h))
        ∙ reverse-reverse bs)

pub from_be_bytes-lt :
    (n : ℕ) (bs : List ℕ) → length bs ≡ n → All IsByte bs → from_be_bytes bs < 256 ^ n
unfolding from_be_bytes
from_be_bytes-lt n bs e h =
    from_le_bytes-lt n (reverse bs) (length-reverse bs ∙ e) (All-reverse IsByte bs h)

pub length-to_be_bytes : (n v : ℕ) → length (to_be_bytes n v) ≡ n
unfolding to_be_bytes
length-to_be_bytes n v = length-reverse (to_le_bytes n v) ∙ length-to_le_bytes n v

pub to_be_bytes-IsByte : (n v : ℕ) → All IsByte (to_be_bytes n v)
unfolding to_be_bytes
to_be_bytes-IsByte n v = All-reverse IsByte (to_le_bytes n v) (to_le_bytes-IsByte n v)

-- A test of every number below a limit, and what it shows of each.
abbrev pub every : (ℕ → Bool) → ℕ → Bool
every test zero = true
every test (suc limit) = every test limit && test limit

pub every-below :
    (test : ℕ → Bool) (limit : ℕ) → every test limit ≡ true → (b : ℕ) → b < limit → test b ≡ true
every-below test zero passed b small = absurd (omega arith)
every-below test (suc limit) passed b small = elim (Bool-cases (b == limit)) [
  | inl same ↦ let here : b ≡ limit = (==_iff b limit).0 same in rw here (ground arith)
  | inr other ↦ every-below test limit (ground arith) b (ground arith)
]

pub bit_and_0x1f : (b : ℕ) → b < 256 → bit_and b 0x1f ≡ b % 32
bit_and_0x1f b h = (==_iff _ _).0 (every-below (λ x. bit_and x 0x1f == x % 32) 256 refl b h)

pub bit_and_0x0f : (b : ℕ) → b < 256 → bit_and b 0x0f ≡ b % 16
bit_and_0x0f b h = (==_iff _ _).0 (every-below (λ x. bit_and x 0x0f == x % 16) 256 refl b h)

bit_or_parts : (w : ℕ) → w < 256 → bit_or (w / 32 * 32) (w % 32) ≡ w
bit_or_parts w h =
    (==_iff _ _).0 (every-below (λ y. bit_or (y / 32 * 32) (y % 32) == y) 256 refl w h)

-- `(major << 5) | low`.
pub bit_or_head :
    (major low : ℕ) → major < 8 → low < 32 → bit_or (major * 32) low ≡ major * 32 + low
bit_or_head major low hm hl =
    let a : (major * 32 + low) / 32 ≡ major = omega arith in
    let b : (major * 32 + low) % 32 ≡ low = omega arith in
    rw (a, b) at (bit_or_parts (major * 32 + low) (omega arith))

bit_or_nibbles_parts : (w : ℕ) → w < 256 → bit_or (w / 16 * 16) (w % 16) ≡ w
bit_or_nibbles_parts w h =
    (==_iff _ _).0 (every-below (λ y. bit_or (y / 16 * 16) (y % 16) == y) 256 refl w h)

-- `(hi << 4) | lo`.
pub bit_or_nibbles : (hi lo : ℕ) → hi < 16 → lo < 16 → bit_or (hi * 16) lo ≡ hi * 16 + lo
bit_or_nibbles hi lo hh hl =
    let a : (hi * 16 + lo) / 16 ≡ hi = omega arith in
    let b : (hi * 16 + lo) % 16 ≡ lo = omega arith in
    rw (a, b) at (bit_or_nibbles_parts (hi * 16 + lo) (omega arith))
