-- ===== src/Text/Hex.antt =====
-- Hexadecimal text: ToHex, HexVal and FromHex of IMServer/IMServer/MsgCacheManager.cpp (upper
-- case, for X'..' literals) and pwd::detail::to_hex of IMServer/IMServer/PasswordUtil.h.
use Prim.Native.Nat.{bit_or}
use mathlib.Core.Path.{ap₂}
use aim_server.Common.{
  ℕ, zero, suc, ◌+◌, ◌-◌, ◌*◌, ◌/◌, ◌%◌, ◌≤◌, ◌<◌, ◌≡◌, refl, ◌⊎◌, Bool, true, false, inl, inr,
  eq-cases, ◌&&◌, ◌||◌, [], ◌∷◌, ◌++◌, arith, leb, ◌==◌, ==_iff, if◌then◌else◌, Bytes, IsBytes,
  text, get_or, All, length,
}

-- Two digits for each byte, from a table of sixteen.
hex_of : Bytes → Bytes → Bytes
hex_of table [] = []
hex_of table (c ∷ s) = get_or table (c / 16) 0 ∷ get_or table (c % 16) 0 ∷ hex_of table s

-- ToHex.
pub to_hex : Bytes → Bytes
unfolding hex_of
to_hex = hex_of (text "0123456789ABCDEF")

-- pwd::detail::to_hex.
pub to_hex_lower : Bytes → Bytes
unfolding hex_of
to_hex_lower = hex_of (text "0123456789abcdef")

pub hex_val : ℕ → ℕ
hex_val c =
    if leb b'0' c && leb c b'9'
    then c - b'0'
    else if leb b'A' c && leb c b'F'
    then c - b'A' + 10
    else if leb b'a' c && leb c b'f'
    then c - b'a' + 10
    else 0

-- An odd last digit is dropped.
unfoldable pub from_hex : Bytes → Bytes
unfolding hex_val
from_hex [] = []
from_hex (a ∷ []) = []
from_hex (a ∷ b ∷ s) = bit_or (hex_val a * 16) (hex_val b) ∷ from_hex s

-- The digits of upper-case hexadecimal.
abbrev pub IsUpperHex : ℕ → Type 0
IsUpperHex c = ((b'0' ≤ c) × (c ≤ b'9')) ⊎ ((b'A' ≤ c) × (c ≤ b'F'))

abbrev pub IsLowerHex : ℕ → Type 0
IsLowerHex c = ((b'0' ≤ c) × (c ≤ b'9')) ⊎ ((b'a' ≤ c) × (c ≤ b'f'))

-- Whether a test passes for each code under a limit.
passes : (ℕ → Bool) → ℕ → Bool
passes test zero = true
passes test (suc limit) = if test limit then passes test limit else false

passes-at :
    (test : ℕ → Bool) (limit : ℕ) → passes test limit ≡ true → (i : ℕ) → i < limit → test i ≡ true
unfolding passes
passes-at test zero all i below = absurd (omega arith)
passes-at test (suc limit) all i below =
    let here : test limit ≡ true = ground arith in
    elim (eq-cases i limit) [
      | inl last ↦ rw last here
      | inr before ↦ passes-at test limit (ground arith) i (omega arith)
    ]

digit_of : ℕ → ℕ
digit_of n = get_or (text "0123456789ABCDEF") n 0

byte_table :
    passes (λ c. bit_or (hex_val (digit_of (c / 16)) * 16) (hex_val (digit_of (c % 16))) == c) 256
    ≡ true
unfolding passes hex_val digit_of text
byte_table = refl

byte_of_digits :
    (c : ℕ) → c < 256 → bit_or (hex_val (digit_of (c / 16)) * 16) (hex_val (digit_of (c % 16))) ≡ c
byte_of_digits c h = (==_iff _ c).0 (passes-at _ 256 byte_table c h)

is_upper_hex : ℕ → Bool
is_upper_hex c = (leb b'0' c && leb c b'9') || (leb b'A' c && leb c b'F')

is_lower_hex : ℕ → Bool
is_lower_hex c = (leb b'0' c && leb c b'9') || (leb b'a' c && leb c b'f')

upper_table : passes (λ n. is_upper_hex (get_or (text "0123456789ABCDEF") n 0)) 16 ≡ true
unfolding passes is_upper_hex text
upper_table = refl

lower_table : passes (λ n. is_lower_hex (get_or (text "0123456789abcdef") n 0)) 16 ≡ true
unfolding passes is_lower_hex text
lower_table = refl

upper_digit : (n : ℕ) → n < 16 → IsUpperHex (get_or (text "0123456789ABCDEF") n 0)
unfolding is_upper_hex
upper_digit n h = ground (arith, passes-at _ 16 upper_table n h)

lower_digit : (n : ℕ) → n < 16 → IsLowerHex (get_or (text "0123456789abcdef") n 0)
unfolding is_lower_hex
lower_digit n h = ground (arith, passes-at _ 16 lower_table n h)

-- Binary data survives the way into the database as an X'..' literal and back through HEX().
pub from_hex-to_hex : (s : Bytes) → IsBytes s → from_hex (to_hex s) ≡ s
unfolding from_hex to_hex digit_of
from_hex-to_hex [] h = refl
from_hex-to_hex (c ∷ s) h = ap₂ ◌∷◌ (byte_of_digits c h.0) (from_hex-to_hex s h.1)

-- What follows whole bytes is decoded behind them.
pub from_hex-append :
    (s rest : Bytes) → IsBytes s → from_hex (to_hex s ++ rest) ≡ s ++ from_hex rest
unfolding from_hex to_hex digit_of
from_hex-append [] rest h = refl
from_hex-append (c ∷ s) rest h = ap₂ ◌∷◌ (byte_of_digits c h.0) (from_hex-append s rest h.1)

-- The hexadecimal text of bytes is twice as long and has only the digits 0-9 and A-F, so it
-- cannot close the literal that it stands in.
pub to_hex_digits :
    (s : Bytes) → IsBytes s → All IsUpperHex (to_hex s) × (length (to_hex s) ≡ 2 * length s)
unfolding to_hex
to_hex_digits [] h = (tt, omega arith)
to_hex_digits (c ∷ s) h =
    let (ih, len) = to_hex_digits s h.1 in
    ((upper_digit (c / 16) (omega arith), (upper_digit (c % 16) (omega arith), ih)), omega arith)

pub to_hex_lower_digits :
    (s : Bytes)
    → IsBytes s
    → All IsLowerHex (to_hex_lower s) × (length (to_hex_lower s) ≡ 2 * length s)
unfolding to_hex_lower
to_hex_lower_digits [] h = (tt, omega arith)
to_hex_lower_digits (c ∷ s) h =
    let (ih, len) = to_hex_lower_digits s h.1 in
    ((lower_digit (c / 16) (omega arith), (lower_digit (c % 16) (omega arith), ih)), omega arith)
