-- ===== src/Query/Field/Conversions.antt =====
-- What the conversions of Field (IMServer/IMServer/Field.h) give for numbers that a statement wrote.
use aim_server.Common.{
  ℕ, ◌^◌, ◌<◌, ◌≡◌, refl, ap, ◌∙◌, some, [], ◌∷◌, arith, Bytes, ℤ, pos, negsuc, ◌≤ℤ◌, ◌-◌, ltb,
  if◌then◌else◌, int32_min, int32_max,
}
use aim_server.Text.Decimal.{atoi, show_int, atoi-show_int}
use aim_server.Query.Field.{
  Field, set_value, to_unsigned, to_signed, signed_of, saturated, atoi_int, atoll, to_int8,
  to_uint8, to_int32, to_uint32, to_int64, to_uint64,
}

signed_fits8 : (z : ℤ) → negsuc 127 ≤ℤ z → z ≤ℤ pos 127 → to_signed 8 z ≡ z
unfolding to_signed to_unsigned signed_of
signed_fits8 (pos n) lo hi = ground arith
signed_fits8 (negsuc n) lo hi = ground arith

signed_fits32 : (z : ℤ) → int32_min ≤ℤ z → z ≤ℤ int32_max → to_signed 32 z ≡ z
unfolding to_signed to_unsigned signed_of
signed_fits32 (pos n) lo hi = ground arith
signed_fits32 (negsuc n) lo hi = ground arith

-- The cast to an int and back loses nothing of a number of 32 bits.
cast_back : (n : ℕ) → n < 2 ^ 32 → to_unsigned 32 (to_signed 32 (pos n)) ≡ n
unfolding to_signed to_unsigned signed_of
cast_back n h = ground arith

saturated_fits : (z : ℤ) → negsuc (2 ^ 63 - 1) ≤ℤ z → z ≤ℤ pos (2 ^ 63 - 1) → saturated z ≡ z
unfolding saturated
saturated_fits (pos n) lo hi = ground arith
saturated_fits (negsuc n) lo hi = ground arith

unsigned_saturated :
    (n : ℕ) → to_unsigned 64 (saturated (pos n)) ≡ (if ltb n (2 ^ 63) then n else 2 ^ 63 - 1)
unfolding saturated to_unsigned
unsigned_saturated n = ground arith

pub value-set_value : (s : Bytes) (f : Field) → (set_value (some s) f).value ≡ s
unfolding set_value
value-set_value [] f = refl
value-set_value (c ∷ s) f = refl

-- What atoi reads of a number that SetValue has stored.
stored_number : (z : ℤ) (f : Field) → atoi (set_value (some (show_int z)) f).value ≡ z
stored_number z f = ap atoi (value-set_value (show_int z) f) ∙ atoi-show_int z

-- What SetValue stores of a number in decimal.
abbrev pub number : ℤ → Field → Field
number z f = set_value (some (show_int z)) f

atoll-number : (z : ℤ) (f : Field) → atoll (number z f).value ≡ saturated z
unfolding atoll
atoll-number z f = ap saturated (stored_number z f)

atoi_int-number :
    (z : ℤ) (f : Field)
    → negsuc (2 ^ 63 - 1) ≤ℤ z
    → z ≤ℤ pos (2 ^ 63 - 1)
    → atoi_int (number z f).value ≡ to_signed 32 z
unfolding atoi_int set_value atoll
atoi_int-number z f lo hi = ap (to_signed 32) (atoll-number z f ∙ saturated_fits z lo hi)

atoi_int_fits :
    (z : ℤ) (f : Field) → int32_min ≤ℤ z → z ≤ℤ int32_max → atoi_int (number z f).value ≡ z
atoi_int_fits z f lo hi = atoi_int-number z f (omega arith) (omega arith) ∙ signed_fits32 z lo hi

-- A number that a column holds in decimal is read back by each conversion whose type has it, but for
-- toUint64, which gives 2^63 - 1 for every number from 2^63 on.
pub conversions_fit :
    (z8 z32 z64 : ℤ) (n8 n32 n64 : ℕ) (f : Field)
    → negsuc 127 ≤ℤ z8
    → z8 ≤ℤ pos 127
    → int32_min ≤ℤ z32
    → z32 ≤ℤ int32_max
    → negsuc (2 ^ 63 - 1) ≤ℤ z64
    → z64 ≤ℤ pos (2 ^ 63 - 1)
    → n8 < 2 ^ 8
    → n32 < 2 ^ 32
    → (to_int8 (number z8 f) ≡ z8)
      × (to_int32 (number z32 f) ≡ z32)
      × (to_int64 (number z64 f) ≡ z64)
      × (to_uint8 (number (pos n8) f) ≡ n8)
      × (to_uint32 (number (pos n32) f) ≡ n32)
      × (to_uint64 (number (pos n64) f) ≡ (if ltb n64 (2 ^ 63) then n64 else 2 ^ 63 - 1))
unfolding to_int32 to_int64 to_int8 to_uint8 to_uint32 to_uint64 to_unsigned
conversions_fit z8 z32 z64 n8 n32 n64 f lo8 hi8 lo32 hi32 lo64 hi64 h8 h32 = (
  ap (to_signed 8) (atoi_int_fits z8 f (omega arith) (omega arith)) ∙ signed_fits8 z8 lo8 hi8,
  atoi_int_fits z32 f lo32 hi32,
  atoll-number z64 f ∙ saturated_fits z64 lo64 hi64,
  rw (atoi_int_fits (pos n8) f (omega arith) (omega arith)) (omega arith),
  ap (to_unsigned 32) (atoi_int-number (pos n32) f (omega arith) (omega arith)) ∙ cast_back n32 h32,
  ap (to_unsigned 64) (atoll-number (pos n64) f) ∙ unsigned_saturated n64,
)
