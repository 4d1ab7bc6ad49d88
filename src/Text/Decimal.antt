-- ===== src/Text/Decimal.antt =====
-- Numbers in text, as the server writes them into SQL statements (operator<< on an int) and reads
-- them from result fields (Field::toInt32 and toInt64 in IMServer/IMServer/Field.h) and from a
-- search keyword (std::stoi in ClientSession::OnFindUserResponse).
use native.Mathlib.Numerals.{add-one}
use aim_server.Common.{
  ℕ, zero, suc, ◌+◌, ◌-◌, ◌*◌, ◌/◌, ◌%◌, ◌≤◌, ◌<◌, ◌≡◌, refl, Bool, false, ◌&&◌, ◌||◌, Option, none,
  some, [], ◌∷◌, arith, ltb, leb, ◌==◌, if◌then◌else◌, Bytes, ℤ, pos, negsuc, leb_ℤ, int32_max,
  int32_min, Bool-cases, inl, inr,
}

pub is_digit : ℕ → Bool
is_digit c = leb b'0' c && leb c b'9'

pub is_space : ℕ → Bool
is_space c = (c == 32) || (leb 9 c && leb c 13)

-- The digits of a number in front of what is already written.
show_loop : ℕ → ℕ → Bytes → Bytes
show_loop zero n acc = acc
show_loop (suc f) n acc =
    let rest = show_loop f (n / 10) ((b'0' + n % 10) ∷ acc) in
    if ltb n 10 then (b'0' + n) ∷ acc else rest

pub show_ℕ : ℕ → Bytes
unfolding show_loop
show_ℕ n = show_loop (suc n) n []

-- `stream << n` for a signed number.
unfoldable pub show_int : ℤ → Bytes
unfolding show_ℕ
show_int (pos n) = show_ℕ n
show_int (negsuc n) = b'-' ∷ show_ℕ (n + 1)

read_digits : ℕ → Bytes → ℕ
unfolding is_digit
read_digits v [] = v
read_digits v (c ∷ s) = if is_digit c then read_digits (v * 10 + (c - b'0')) s else v

skip_spaces : Bytes → Bytes
unfolding is_space
skip_spaces [] = []
skip_spaces (c ∷ s) = if is_space c then skip_spaces s else c ∷ s

negate : ℕ → ℤ
negate zero = pos 0
negate (suc n) = negsuc n

signed : Bytes → ℤ
unfolding read_digits negate
signed [] = pos 0
signed (c ∷ s) =
    if c == b'-'
    then negate (read_digits 0 s)
    else if c == b'+'
    then pos (read_digits 0 s)
    else pos (read_digits 0 (c ∷ s))

-- `atoi` and `atoll`; a value that does not fit the C++ type is outside their contract.
unfoldable pub atoi : Bytes → ℤ
unfolding signed skip_spaces
atoi s = signed (skip_spaces s)

starts_digit : Bytes → Bool
unfolding is_digit
starts_digit [] = false
starts_digit (c ∷ s) = is_digit c

has_digits : Bytes → Bool
unfolding starts_digit
has_digits [] = false
has_digits (c ∷ s) = if (c == b'-') || (c == b'+') then starts_digit s else starts_digit (c ∷ s)

-- `std::stoi`: `none` stands for the exception, on no number or one outside int32_t.
pub stoi : Bytes → Option ℤ
unfolding atoi has_digits
stoi s =
    if has_digits (skip_spaces s) && (leb_ℤ int32_min (atoi s) && leb_ℤ (atoi s) int32_max)
    then some (atoi s)
    else none

read_digits-show_loop :
    (f n : ℕ) (acc : Bytes) → n < f → read_digits 0 (show_loop f n acc) ≡ read_digits n acc
unfolding read_digits show_loop
read_digits-show_loop zero n acc h = absurd (omega arith)
read_digits-show_loop (suc f) n acc h =
    ground (arith, read_digits-show_loop f (n / 10) ((b'0' + n % 10) ∷ acc))

-- What starts with a digit is read with no sign and no space skipped.
StartsDigit : Bytes → Type 0
StartsDigit s = (c : ℕ) × (r : Bytes) × (s ≡ c ∷ r) × (b'0' ≤ c) × (c ≤ b'9')

show_loop-StartsDigit : (f n : ℕ) (acc : Bytes) → n < f → StartsDigit (show_loop f n acc)
unfolding show_loop StartsDigit
show_loop-StartsDigit zero n acc h = absurd (omega arith)
show_loop-StartsDigit (suc f) n acc h = elim (Bool-cases (ltb n 10)) [
  | inl one ↦ (b'0' + n, acc, ground arith, omega arith, ground arith)
  | inr more ↦ ground (arith, show_loop-StartsDigit f (n / 10) ((b'0' + n % 10) ∷ acc))
]

atoi_unsigned : (s : Bytes) → StartsDigit s → atoi s ≡ pos (read_digits 0 s)
unfolding StartsDigit atoi
atoi_unsigned s (c, r, e, lo, hi) = ground arith

read_digits-show_ℕ : (n : ℕ) → read_digits 0 (show_ℕ n) ≡ n
unfolding show_ℕ read_digits
read_digits-show_ℕ n = read_digits-show_loop (suc n) n [] (omega arith)

show_ℕ-StartsDigit : (n : ℕ) → StartsDigit (show_ℕ n)
unfolding show_ℕ
show_ℕ-StartsDigit n = show_loop-StartsDigit (suc n) n [] (omega arith)

negate-add_one : (n : ℕ) → negate (n + 1) ≡ negsuc n
unfolding negate
negate-add_one n = rw add-one

atoi_negative : (s : Bytes) → atoi (b'-' ∷ s) ≡ negate (read_digits 0 s)
unfolding atoi
atoi_negative s = refl

-- A number that is written into a statement and read back from a field is the same number.
pub atoi-show_int : (z : ℤ) → atoi (show_int z) ≡ z
unfolding show_int
atoi-show_int (pos n) = rw (atoi_unsigned (show_ℕ n) (show_ℕ-StartsDigit n), read_digits-show_ℕ n)
atoi-show_int (negsuc n) =
    rw (atoi_negative (show_ℕ (n + 1)), read_digits-show_ℕ (n + 1)) (negate-add_one n)
