-- ===== src/Tests.antt =====
-- Each theorem about the libraries under the server, applied at a concrete input.
pub mod Accounts
pub mod Cache
pub mod Handlers
pub mod Database
pub mod Schema
pub mod Delivery
pub mod Startup
pub mod Results
pub mod Threads
pub mod Sessions
pub mod Requests
use aim_server.Common.{
  ℕ, ◌≡◌, ◌≢◌, List, [], ◌∷◌, ◌++◌, arith, Bytes, IsBytes, ℤ, pos, negsuc, text, length, All, some,
  true, ◌+◌, ◌*◌, ◌%◌,
}
use aim_server.Text.Decimal.{show_int, atoi, atoi-show_int}
use aim_server.Text.Hex.{to_hex, from_hex, from_hex-to_hex, to_hex_digits, IsUpperHex}
use aim_server.Text.Sql.{escape_sql_string, read-escape_sql_string}
use aim_server.Password.{hash_password, verify_password}
use aim_server.Password.Verify.{verify_password-hash_password, hash_password_fits, IsPlain}
use aim_server.Password.Sha256.{padded, padded-aligned, sha256_raw, sha256_raw_digest}
use aim_server.Query.{read_rows, read_rows-All}
use aim_server.Fixtures.{reader, read_quoted, account_rows, account_row}

-- A quote and a backslash.
abbrev marks : Bytes
marks = 39 ∷ 92 ∷ []

read-escape_sql_string_example :
    read_quoted (escape_sql_string marks ++ 39 ∷ 59 ∷ []) ≡ some (marks, 59 ∷ [])
read-escape_sql_string_example = read-escape_sql_string reader marks 59 [] (ground arith)

verify_password-hash_password_example :
    verify_password (text "secret") (hash_password (λ i. i) (text "secret")) ≡ true
verify_password-hash_password_example = verify_password-hash_password (λ i. i) (text "secret")
