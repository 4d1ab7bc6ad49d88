-- ===== src/Password/Verify.antt =====
-- Hashed passwords of IMServer/IMServer/PasswordUtil.h: their check and the form of their text.
use aim_server.Common.{
  ℕ, zero, suc, ◌+◌, ◌<◌, ◌≡◌, refl, ◌≢◌, true, some, [], ◌∷◌, ◌++◌, arith, Bytes, IsBytes, All,
  bytes_eq, bytes_eq_refl, text, length, length-append, All-append, drop,
}
use aim_server.Text.Hex.{to_hex_lower, to_hex_lower_digits, IsLowerHex}
use aim_server.Password.Sha256.{sha256_raw, sha256_raw_digest}
use aim_server.Password.{
  sha256_hex, stretch, digest, salt_from, salt, hash_password, is_hashed, split_dollar,
  verify_parts, verify_password,
}

salt_from-IsBytes :
    (draws : ℕ → ℕ) (i n : ℕ) → IsBytes (salt_from draws i n) × (length (salt_from draws i n) ≡ n)
unfolding salt_from
salt_from-IsBytes draws i zero = (tt, refl)
salt_from-IsBytes draws i (suc n) =
    let (ih, len) = salt_from-IsBytes draws (i + 1) n in ((omega arith, ih), omega arith)

salt_hex_digits :
    (draws : ℕ → ℕ)
    → All IsLowerHex (to_hex_lower (salt draws)) × (length (to_hex_lower (salt draws)) ≡ 32)
unfolding salt
salt_hex_digits draws =
    let (bytes, len) = salt_from-IsBytes draws 0 16 in
    let (digits, twice) = to_hex_lower_digits (salt draws) bytes in (digits, omega arith)

IsDigestText : Bytes → Type 0
IsDigestText s = All IsLowerHex s × (length s ≡ 64)

sha256_hex-IsDigestText : (s : Bytes) → IsDigestText (sha256_hex s)
unfolding sha256_hex IsDigestText
sha256_hex-IsDigestText s =
    let (bytes, len) = sha256_raw_digest s in
    let (digits, twice) = to_hex_lower_digits (sha256_raw s) bytes in (digits, omega arith)

stretch-IsDigestText : (n : ℕ) (s : Bytes) → IsDigestText s → IsDigestText (stretch n s)
unfolding stretch
stretch-IsDigestText zero s h = h
stretch-IsDigestText (suc n) s h = stretch-IsDigestText n (sha256_hex s) (sha256_hex-IsDigestText s)

digest-IsDigestText : (salt_hex plain : Bytes) → IsDigestText (digest salt_hex plain)
unfolding digest
digest-IsDigestText salt_hex plain = stretch-IsDigestText _ _ (sha256_hex-IsDigestText _)

-- The separator is found behind text that holds none.
split_dollar-append :
    (s rest : Bytes) → All IsLowerHex s → split_dollar (s ++ b'$' ∷ rest) ≡ some (s, rest)
unfolding split_dollar
split_dollar-append [] rest h = refl
split_dollar-append (c ∷ s) rest h = ground (arith, split_dollar-append s rest h.1)

version : text "v1$" ≡ 118 ∷ 49 ∷ 36 ∷ []
unfolding text
version = refl

is_hashed-version : (s : Bytes) → 0 < length s → is_hashed (text "v1$" ++ s) ≡ true
unfolding is_hashed text bytes_eq
is_hashed-version s h = ground arith

drop-version : (s : Bytes) → drop 3 (text "v1$" ++ s) ≡ s
unfolding text
drop-version s = refl

-- A password matches its own hash, whatever the salt.
pub verify_password-hash_password :
    (draws : ℕ → ℕ) (plain : Bytes) → verify_password plain (hash_password draws plain) ≡ true
unfolding verify_password hash_password verify_parts
verify_password-hash_password draws plain =
    let salt_hex = to_hex_lower (salt draws) in
    let rest = salt_hex ++ b'$' ∷ digest salt_hex plain in
    rw
      (is_hashed-version rest
        (omega (arith, length-append salt_hex (b'$' ∷ digest salt_hex plain))))
      (rw (drop-version rest) (
        rw (split_dollar-append salt_hex (digest salt_hex plain) (salt_hex_digits draws).0)
          (bytes_eq_refl (digest salt_hex plain))))

abbrev pub IsPlain : ℕ → Type 0
IsPlain c = (c ≢ 39) × (c ≢ 92)

IsLowerHex-IsPlain : (s : Bytes) → All IsLowerHex s → All IsPlain s
IsLowerHex-IsPlain [] h = tt
IsLowerHex-IsPlain (c ∷ s) h = (ground arith, IsLowerHex-IsPlain s h.1)

-- A hash has 100 characters, for whatever password, so it fits the column varchar(128), and no
-- quote or backslash stands in it.
pub hash_password_fits :
    (draws : ℕ → ℕ) (plain : Bytes)
    → (length (hash_password draws plain) ≡ 100) × All IsPlain (hash_password draws plain)
unfolding hash_password text IsDigestText
hash_password_fits draws plain =
    let salt_hex = to_hex_lower (salt draws) in
    let (salted, salt_length) = salt_hex_digits draws in
    let (hashed, hash_length) = digest-IsDigestText salt_hex plain in
    (
      omega (arith, length-append salt_hex (b'$' ∷ digest salt_hex plain)),
      (
        ground arith,
        (
          ground arith,
          (
            ground arith,
            All-append IsPlain salt_hex _ (IsLowerHex-IsPlain salt_hex salted)
                (ground arith, IsLowerHex-IsPlain (digest salt_hex plain) hashed),
          ),
        ),
      ),
    )
