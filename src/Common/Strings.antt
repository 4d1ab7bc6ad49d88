-- ===== src/Common/Strings.antt =====
-- std::string as a list of bytes: equality, prefixes, search, and literals in UTF-8.
use Prim.Native.Nat.{ℕ, ◌+◌, ◌/◌, ◌%◌, ◌<◌}
use Prim.Native.Char.{code}
use Prim.Native.String.{String}
use mathlib.Core.Path.{◌≡◌, refl}
use mathlib.Core.Logic.{◌↔◌, ◌≢◌}
use mathlib.Core.Bool.{Bool, true, false, ◌&&◌}
use mathlib.Core.List.{List, [], ◌∷◌, ◌++◌}
use native.Mathlib.Omega.{arith}
use aim_server.Common.Tests.{ltb, ◌==◌, if◌then◌else◌}
use aim_server.Common.Lists.{All}

abbrev pub Bytes : Type 0
Bytes = List ℕ

-- Each item is a byte.
abbrev pub IsBytes : Bytes → Type 0
IsBytes = All (λ b. b < 256)

-- `a == b` on strings; its law is `bytes_eq_iff`.
unfoldable pub bytes_eq : Bytes → Bytes → Bool
bytes_eq [] [] = true
bytes_eq (a ∷ x) (b ∷ y) = (a == b) && bytes_eq x y
bytes_eq _ _ = false

pub bytes_eq_iff : (a b : Bytes) → (bytes_eq a b ≡ true) ↔ (a ≡ b)
unfolding bytes_eq
bytes_eq_iff [] [] = ground arith
bytes_eq_iff [] (b ∷ y) = ground arith
bytes_eq_iff (a ∷ x) [] = ground arith
bytes_eq_iff (a ∷ x) (b ∷ y) = ground (arith, bytes_eq_iff x y)

pub bytes_eq_refl : (a : Bytes) → bytes_eq a a ≡ true
bytes_eq_refl a = (bytes_eq_iff a a).1 refl

-- `a < b` on strings, by bytes.
unfoldable pub bytes_lt : Bytes → Bytes → Bool
bytes_lt _ [] = false
bytes_lt [] (b ∷ y) = true
bytes_lt (a ∷ x) (b ∷ y) = if ltb a b then true else (a == b) && bytes_lt x y

pub bytes_lt_trans :
    (x y z : Bytes) → bytes_lt x y ≡ true → bytes_lt y z ≡ true → bytes_lt x z ≡ true
unfolding bytes_lt
bytes_lt_trans x [] z h g = absurd (ground arith)
bytes_lt_trans x (b ∷ y) [] h g = absurd (ground arith)
bytes_lt_trans [] (b ∷ y) (c ∷ z) h g = refl
bytes_lt_trans (a ∷ x) (b ∷ y) (c ∷ z) h g = grind (arith, bytes_lt_trans x y z)

-- Of two different keys one is before the other.
pub bytes_lt_total :
    (x y : Bytes) → bytes_eq x y ≡ false → bytes_lt y x ≡ false → bytes_lt x y ≡ true
unfolding bytes_lt bytes_eq
bytes_lt_total [] [] apart h = absurd (ground arith)
bytes_lt_total [] (b ∷ y) apart h = refl
bytes_lt_total (a ∷ x) [] apart h = absurd (ground arith)
bytes_lt_total (a ∷ x) (b ∷ y) apart h = grind (arith, bytes_lt_total x y)

-- What a callee sees of `s.c_str()`: the bytes in front of the first NUL.
unfoldable pub c_string : Bytes → Bytes
c_string [] = []
c_string (c ∷ s) = if c == 0 then [] else c ∷ c_string s

-- Nothing behind a NUL is seen.
pub c_string-append_nul : (a b : Bytes) → c_string (a ++ 0 ∷ b) ≡ c_string a
unfolding c_string
c_string-append_nul [] b = refl
c_string-append_nul (c ∷ a) b = ground (arith, c_string-append_nul a b)

-- A text without NUL is seen whole.
pub c_string_whole : (s : Bytes) → All (λ b. b ≢ 0) s → c_string s ≡ s
unfolding c_string
c_string_whole [] h = refl
c_string_whole (c ∷ s) h = ground (arith, c_string_whole s)

-- `s.empty()`.
abbrev pub is_empty : Bytes → Bool
is_empty [] = true
is_empty (_ ∷ _) = false

-- The bytes of a code point in UTF-8.
encode_char : ℕ → Bytes
encode_char c =
    if ltb c 0x80
    then c ∷ []
    else if ltb c 0x800
    then (0xC0 + c / 64) ∷ (0x80 + c % 64) ∷ []
    else if ltb c 0x10000
    then (0xE0 + c / 4096) ∷ (0x80 + c / 64 % 64) ∷ (0x80 + c % 64) ∷ []
    else (0xF0 + c / 262144) ∷ (0x80 + c / 4096 % 64) ∷ (0x80 + c / 64 % 64) ∷ (0x80 + c % 64) ∷ []

-- A string literal of the source, whose files are in UTF-8.
unfoldable pub text : String → Bytes
unfolding encode_char
text String.[] = []
text (String.◌∷◌ c s) = encode_char (code c) ++ text s
