-- ===== src/Text/Sql.antt =====
-- EscapeSqlString of IMServer/IMServer/UserManager.cpp, against the way MySQL reads a quoted
-- string. MySQL itself is no part of the repository: its reader is a parameter, with the laws
-- of its manual for a literal between single quotes.
use aim_server.Common.{
  ℕ, ◌≡◌, refl, ◌≢◌, [], ◌∷◌, ◌++◌, Option, none, some, arith, ◌==◌, if◌then◌else◌, Bytes,
}

-- A backslash and a quote are doubled.
pub escape_sql_string : Bytes → Bytes
escape_sql_string [] = []
escape_sql_string (c ∷ s) =
    let rest = escape_sql_string s in
    if c == 92 then 92 ∷ 92 ∷ rest else if c == 39 then 39 ∷ 39 ∷ rest else c ∷ rest

pub escape_sql_string-append_nul :
    (a b : Bytes) → escape_sql_string (a ++ 0 ∷ b) ≡ escape_sql_string a ++ 0 ∷ escape_sql_string b
unfolding escape_sql_string
escape_sql_string-append_nul [] b = refl
escape_sql_string-append_nul (c ∷ a) b = ground (arith, escape_sql_string-append_nul a b)

-- The value read so far gets one more character in front.
abbrev pub read_more : ℕ → Option (Bytes × Bytes) → Option (Bytes × Bytes)
read_more c none = none
read_more c (some (s, rest)) = some (c ∷ s, rest)

-- How the text behind an opening quote is read, into the value and the text behind the closing
-- quote.
pub record LiteralReader : Type 0 where
  pub read : Bytes → Option (Bytes × Bytes)
  pub at_quotes : (rest : Bytes) → read (39 ∷ 39 ∷ rest) ≡ read_more 39 (read rest)
  pub at_backslashes : (rest : Bytes) → read (92 ∷ 92 ∷ rest) ≡ read_more 92 (read rest)
  pub at_plain :
      (c : ℕ) (rest : Bytes) → c ≢ 39 → c ≢ 92 → read (c ∷ rest) ≡ read_more c (read rest)
  pub at_close : (c : ℕ) (rest : Bytes) → c ≢ 39 → read (39 ∷ c ∷ rest) ≡ some ([], c ∷ rest)

-- Whatever text a client sends, the escaped literal is read back as that text, and the statement
-- goes on where the program meant it to.
pub read-escape_sql_string :
    (r : LiteralReader) (s : Bytes) (c : ℕ) (rest : Bytes)
    → c ≢ 39
    → r.read (escape_sql_string s ++ 39 ∷ c ∷ rest) ≡ some (s, c ∷ rest)
unfolding escape_sql_string
read-escape_sql_string r [] c rest h = r.at_close c rest h
read-escape_sql_string r (x ∷ s) c rest h = ground (
  arith,
  read-escape_sql_string r s c rest h,
  r.at_quotes (escape_sql_string s ++ 39 ∷ c ∷ rest),
  r.at_backslashes (escape_sql_string s ++ 39 ∷ c ∷ rest),
  r.at_plain x (escape_sql_string s ++ 39 ∷ c ∷ rest),
)
