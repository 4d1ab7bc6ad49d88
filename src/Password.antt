-- ===== src/Password.antt =====
-- Salted password hashes: namespace pwd of IMServer/IMServer/PasswordUtil.h. What
-- std::random_device returns at its i-th call is a parameter, `draws`.
pub mod Sha256
pub mod Verify
use aim_server.Common.{
  ℕ, zero, suc, ◌+◌, ◌-◌, ◌%◌, Bool, true, false, ◌&&◌, Option, none, some, List, [], ◌∷◌, ◌++◌,
  ltb, ◌==◌, if◌then◌else◌, Bytes, bytes_eq, text, length, take, drop,
}
use aim_server.Text.Hex.{to_hex_lower}
use Sha256.{sha256_raw}

pub sha256_hex : Bytes → Bytes
sha256_hex s = to_hex_lower (sha256_raw s)

-- kIterations.
iterations : ℕ
iterations = 10000

-- `h = sha256_hex(h)`, a number of times.
stretch : ℕ → Bytes → Bytes
stretch zero h = h
stretch (suc n) h = stretch n (sha256_hex h)

-- The digest of a salt, in hexadecimal, and a password, after all iterations.
digest : Bytes → Bytes → Bytes
unfolding iterations
digest salt_hex plain = stretch (iterations - 1) (sha256_hex (salt_hex ++ plain))

-- Bytes of the salt from the i-th call on.
salt_from : (ℕ → ℕ) → ℕ → ℕ → Bytes
salt_from draws i zero = []
salt_from draws i (suc n) = draws i % 256 ∷ salt_from draws (i + 1) n

salt : (ℕ → ℕ) → Bytes
salt draws = salt_from draws 0 16

-- HashPassword: "v1$salt$digest".
pub hash_password : (ℕ → ℕ) → Bytes → Bytes
hash_password draws plain =
    let salt_hex = to_hex_lower (salt draws) in
    text "v1$" ++ (salt_hex ++ (b'$' ∷ digest salt_hex plain))

-- IsHashed.
unfoldable pub is_hashed : Bytes → Bool
is_hashed stored = ltb 3 (length stored) && bytes_eq (take 3 stored) (text "v1$")

-- `find('$')` with `substr` on both sides of it; `none` for npos.
pub split_dollar : Bytes → Option (Bytes × Bytes)
split_dollar [] = none
split_dollar (c ∷ s) =
    if c == b'$'
    then some ([], s)
    else elim (split_dollar s) [ none ↦ none | some (a, b) ↦ some (c ∷ a, b) ]

-- VerifyPassword behind the test for the hashed form.
pub verify_parts : Bytes → Option (Bytes × Bytes) → Bool
verify_parts plain none = false
verify_parts plain (some (salt_hex, expect)) = bytes_eq (digest salt_hex plain) expect

-- VerifyPassword.
unfoldable pub verify_password : Bytes → Bytes → Bool
unfolding is_hashed
verify_password plain stored =
    if is_hashed stored
    then verify_parts plain (split_dollar (drop 3 stored))
    else bytes_eq plain stored
