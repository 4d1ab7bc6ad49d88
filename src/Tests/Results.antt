-- ===== src/Tests/Results.antt =====
-- The theorems on query results, at a result of two rows held in memory.
use aim_server.Common.{
  ℕ, suc, ◌≡◌, refl, Option, none, some, List, [], ◌∷◌, arith, map, Bytes, text, pos, negsuc,
}
use aim_server.Query.{read_rows}
use aim_server.Query.Field.{
  Field, new_field, to_int8, to_uint8, to_int32, to_uint32, to_int64, to_uint64,
}
use aim_server.Query.Field.Conversions.{number, conversions_fit}
use aim_server.Query.Result.{
  EnumFieldTypes, field_type_longlong, field_type_var_string, Cells, MysqlRes, IsCursor,
  QueryResult, new_result, read_all,
}
use aim_server.Query.Result.Rows.{cell_text, texts, IsClosed, read_all-read_rows}

-- The rows that are left, and how often the result was freed.
abbrev Memory : Type 0
Memory = List Cells × ℕ

abbrev next_of : Memory → Option Cells × Memory
next_of ([], n) = (none, ([], n))
next_of (r ∷ rs, n) = (some r, (rs, n))

abbrev columns : List (Bytes × EnumFieldTypes)
columns = (text "f_id", field_type_longlong) ∷ (text "f_message", field_type_var_string) ∷ []

abbrev memory : MysqlRes
memory = record {
  State = Memory;
  fetch_fields = λ _. columns;
  fetch_row = next_of;
  free_result = λ s. (s.0, suc s.1);
}

next_of-row :
    (s : Memory) (r : Cells) (rs : List Cells)
    → s.0 ≡ r ∷ rs
    → ((next_of s).0 ≡ some r) × ((next_of s).1.0 ≡ rs)
next_of-row ([], n) r rs e = absurd (cc)
next_of-row (x ∷ xs, n) r rs e = (cc, cc)

next_of-end : (s : Memory) → s.0 ≡ [] → ((next_of s).0 ≡ none) × ((next_of s).1.0 ≡ [])
next_of-end ([], n) e = (refl, refl)
next_of-end (x ∷ xs, n) e = absurd (cc)

next_of-frees : (s : Memory) → (next_of s).1.1 ≡ s.1
next_of-frees ([], n) = refl
next_of-frees (x ∷ xs, n) = refl

abbrev memory-IsCursor : IsCursor memory
memory-IsCursor = record {
  pending = λ s. s.0;
  frees = λ s. s.1;
  at_row = next_of-row;
  at_end = next_of-end;
  row_frees = next_of-frees;
  free_frees = λ _. refl;
}

abbrev two_rows : Memory
two_rows = ((some (text "1") ∷ none ∷ []) ∷ (some (text "2") ∷ some (text "hello") ∷ []) ∷ [], 0)

read_all-read_rows_example :
    (r : List (List Field) × QueryResult memory) × (read_all memory 3
        (new_result memory two_rows 2 2)
      ≡ some r)
    × (map texts r.0 ≡ read_rows (map (map cell_text) two_rows.0))
    × IsClosed memory memory-IsCursor two_rows r.1
read_all-read_rows_example =
    read_all-read_rows memory memory-IsCursor two_rows 2 2 3 refl (omega arith) (refl, (refl, tt))
      (omega arith)

conversions_fit_example :
    (to_int8 (number (negsuc 127) new_field) ≡ negsuc 127)
    × (to_int32 (number (negsuc 6) new_field) ≡ negsuc 6)
    × (to_int64 (number (negsuc 2147483648) new_field) ≡ negsuc 2147483648)
    × (to_uint8 (number (pos 255) new_field) ≡ 255)
    × (to_uint32 (number (pos 4294967295) new_field) ≡ 4294967295)
    × (to_uint64 (number (pos 9223372036854775808) new_field) ≡ 9223372036854775807)
conversions_fit_example =
    conversions_fit (negsuc 127) (negsuc 6) (negsuc 2147483648) 255 4294967295 9223372036854775808
      new_field (omega arith) (omega arith) (omega arith) (omega arith) (omega arith) (omega arith)
      (omega arith) (omega arith)
