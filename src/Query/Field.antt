-- ===== src/Query/Field.antt =====
-- The class Field (IMServer/IMServer/Field.h and Field.cpp): one column of a row and its conversions.
-- toFloat, which calls atof, is used nowhere and is left out.
pub mod Conversions
use aim_server.Common.{
  ℕ, suc, ◌+◌, ◌-◌, ◌*◌, ◌%◌, ◌^◌, Bool, true, false, not, Option, none, some, [], ◌∷◌,
  if◌then◌else◌, Bytes, text, ltb, ℤ, pos, negsuc, eqb,
}
use aim_server.Text.Decimal.{atoi}

-- Field::DataTypes.
pub data DataTypes : Type 0 where
  type_none : DataTypes
  type_string : DataTypes
  type_integer : DataTypes
  type_float : DataTypes
  type_bool : DataTypes
  type_null : DataTypes

pub record Field : Type 0 where
  pub value : Bytes
  pub name : Bytes
  pub type : DataTypes
  pub isnull : Bool

-- Field::Field.
pub new_field : Field
new_field = record { value = []; name = []; type = type_none; isnull = true }

-- Field::SetValue; `none` is a null pointer. An empty text counts as NULL.
unfoldable pub set_value : Option Bytes → Field → Field
set_value none f = record f { isnull = true; value = [] }
set_value (some []) f = record f { isnull = true; value = [] }
set_value (some (c ∷ s)) f = record f { value = c ∷ s; isnull = false }

-- `static_cast` of an int to an unsigned and to a signed type of a width.
pub to_unsigned : ℕ → ℤ → ℕ
to_unsigned width (pos n) = n % 2 ^ width
to_unsigned width (negsuc n) = 2 ^ width - 1 - n % 2 ^ width

signed_of : ℕ → ℕ → ℤ
signed_of width n = if ltb (2 * n) (2 ^ width) then pos n else negsuc (2 ^ width - 1 - n)

pub to_signed : ℕ → ℤ → ℤ
unfolding signed_of to_unsigned
to_signed width z = signed_of width (to_unsigned width z)

-- What strtol and strtoll make of a number in text: beyond a type of 64 bits they give its bound.
saturated : ℤ → ℤ
saturated (pos n) = if ltb n (2 ^ 63) then pos n else pos (2 ^ 63 - 1)
saturated (negsuc n) = if ltb n (2 ^ 63) then negsuc n else negsuc (2 ^ 63 - 1)

-- atoi of the C library: strtol, whose result is cast to an int.
pub atoi_int : Bytes → ℤ
unfolding atoi saturated to_signed
atoi_int s = to_signed 32 (saturated (atoi s))

-- atoll: strtoll.
pub atoll : Bytes → ℤ
unfolding atoi saturated
atoll s = saturated (atoi s)

pub to_bool : Field → Bool
unfolding atoi_int
to_bool f = not (eqb (atoi_int f.value) (pos 0))

pub to_int8 : Field → ℤ
unfolding atoi_int to_signed
to_int8 f = to_signed 8 (atoi_int f.value)

pub to_uint8 : Field → ℕ
unfolding atoi_int to_unsigned
to_uint8 f = to_unsigned 8 (atoi_int f.value)

pub to_int32 : Field → ℤ
unfolding atoi_int
to_int32 f = atoi_int f.value

pub to_uint32 : Field → ℕ
unfolding atoi_int to_unsigned
to_uint32 f = to_unsigned 32 (atoi_int f.value)

pub to_int64 : Field → ℤ
unfolding atoll
to_int64 f = atoll f.value

pub to_uint64 : Field → ℕ
unfolding atoll to_unsigned
to_uint64 f = to_unsigned 64 (atoll f.value)
