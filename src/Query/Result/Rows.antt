-- ===== src/Query/Result/Rows.antt =====
-- The rows that callers of QueryResult (IMServer/IMServer/QueryResult.cpp) see.
use aim_server.Common.{
  ℕ, zero, suc, ◌<◌, ◌≡◌, ◌≢◌, refl, sym, ap, ◌∙◌, true, false, Option, none, some, List, [], ◌∷◌,
  arith, All, Bytes, length, map, if-true,
}
use aim_server.Query.{read_rows, read_rows-All}
use aim_server.Query.Field.{Field, new_field, set_value}
use aim_server.Query.Field.Conversions.{value-set_value}
use aim_server.Query.Result.{
  EnumFieldTypes, Cells, fresh_result, MysqlRes, IsCursor, QueryResult, to_type, first_fields,
  next_fields, data_of, advanced, started, end_query, new_result, next_row, fetch, read_all,
}

-- The text of a column; a null pointer has none.
abbrev pub cell_text : Option Bytes → Bytes
cell_text none = []
cell_text (some s) = s

-- What GetString gives in the columns of a row.
abbrev pub texts : List Field → List Bytes
texts row = map (λ (f : Field). f.value) row

text-set_value : (cell : Option Bytes) (f : Field) → (set_value cell f).value ≡ cell_text cell
unfolding set_value
text-set_value none f = refl
text-set_value (some s) f = value-set_value s f

texts-next :
    (fs : List Field) (r : Cells)
    → length fs ≡ length r
    → (texts (next_fields fs r) ≡ map cell_text r) × (length (next_fields fs r) ≡ length r)
unfolding next_fields
texts-next [] [] h = (refl, refl)
texts-next [] (c ∷ r) h = absurd (omega arith)
texts-next (f ∷ fs) [] h = absurd (omega arith)
texts-next (f ∷ fs) (c ∷ r) h =
    let (same, long) = texts-next fs r (omega arith) in
    (rw (text-set_value c f, same) refl, omega (arith, long))

texts-first :
    (n : ℕ) (columns : List (Bytes × EnumFieldTypes)) (r : Cells)
    → length columns ≡ n
    → length r ≡ n
    → (texts (first_fields n columns r) ≡ map cell_text r) × (length (first_fields n columns r) ≡ n)
unfolding first_fields
texts-first zero columns [] h k = (refl, refl)
texts-first zero columns (c ∷ r) h k = absurd (omega arith)
texts-first (suc n) [] r h k = absurd (omega arith)
texts-first (suc n) (c ∷ columns) [] h k = absurd (omega arith)
texts-first (suc n) ((name, type) ∷ columns) (c ∷ r) h k =
    let (same, long) = texts-first n columns r (omega arith) (omega arith) in
    (
      rw (text-set_value c (record new_field { type = to_type type; name = name }), same) refl,
      omega (arith, long),
    )

data_of-some : (row : List Field) → 0 < length row → data_of row ≡ some row
unfolding data_of
data_of-some [] h = absurd (omega arith)
data_of-some (f ∷ fs) h = refl

module _ (m : MysqlRes) where
  advanced-some :
      (q : QueryResult m) (p : Option Cells × m.State) (r : Cells)
      → p.0 ≡ some r
      → advanced m q p ≡ (true, record q { current_row = next_fields q.current_row r; res = p.1 })
  unfolding advanced
  advanced-some q (none, s) r e = absurd (ground arith)
  advanced-some q (some r', s) r e = ground arith

  advanced-none :
      (q : QueryResult m) (p : Option Cells × m.State)
      → p.0 ≡ none
      → advanced m q p ≡ (false, end_query m (record q { res = p.1 }))
  unfolding advanced
  advanced-none q (none, s) e = refl
  advanced-none q (some r, s) e = absurd (ground arith)

  started-some :
      (q : QueryResult m) (p : Option Cells × m.State) (r : Cells)
      → p.0 ≡ some r
      → started m q p ≡ record q {
        current_row = first_fields q.columncount (m.fetch_fields q.res) r;
        field_names = map (λ (c : Bytes × EnumFieldTypes). c.0) (m.fetch_fields q.res);
        res = p.1;
      }
  unfolding started
  started-some q (none, s) r e = absurd (ground arith)
  started-some q (some r', s) r e = cc

  started-none :
      (q : QueryResult m) (p : Option Cells × m.State)
      → p.0 ≡ none
      → started m q p ≡ end_query m (record q { res = p.1 })
  unfolding started
  started-none q (none, s) e = refl
  started-none q (some r, s) e = absurd (ground arith)

module _ (m : MysqlRes) (law : IsCursor m) where
  -- The result is closed, and was given back once more than before.
  pub record IsClosed (before : m.State) (q : QueryResult m) : Type 0 where
    pub closed : q.has_result ≡ false
    pub no_row : q.current_row ≡ []
    pub freed_once : law.frees q.res ≡ suc (law.frees before)

  fetch-some : (q : QueryResult m) → 0 < length q.current_row → fetch m q ≡ some q.current_row
  unfolding fetch
  fetch-some q h = data_of-some q.current_row h

  next_row-more :
      (q : QueryResult m) (r : Cells) (rs : List Cells)
      → q.has_result ≡ true
      → law.pending q.res ≡ r ∷ rs
      → next_row m q ≡ (
        true,
        record q { current_row = next_fields q.current_row r; res = (m.fetch_row q.res).1 },
      )
  unfolding next_row
  next_row-more q r rs is_set e =
      if-true q.has_result _ _ is_set
      ∙ advanced-some m q (m.fetch_row q.res) r (law.at_row q.res r rs e).0

  next_row-end :
      (q : QueryResult m)
      → q.has_result ≡ true
      → law.pending q.res ≡ []
      → next_row m q ≡ (false, end_query m (record q { res = (m.fetch_row q.res).1 }))
  unfolding next_row
  next_row-end q is_set e =
      if-true q.has_result _ _ is_set ∙ advanced-none m q (m.fetch_row q.res) (law.at_end q.res e).0

  ended :
      (q : QueryResult m) (s : m.State)
      → q.has_result ≡ true
      → law.frees q.res ≡ law.frees s
      → IsClosed s (end_query m (end_query m q))
  unfolding end_query
  ended q s is_set same = record {
    closed = refl;
    no_row = refl;
    freed_once =
        ap law.frees (if-true q.has_result _ _ is_set) ∙ (law.free_frees q.res ∙ ap suc same);
  }

  IsClosed-since :
      (s t : m.State) (q : QueryResult m) → law.frees t ≡ law.frees s → IsClosed t q → IsClosed s q
  IsClosed-since s t q same c = record {
    closed = c.closed;
    no_row = c.no_row;
    freed_once = c.freed_once ∙ ap suc same;
  }

  -- What the loop has to do: the current row, and the rows behind it.
  record Reads (rows : List Cells) (q : QueryResult m) (r : List (List Field) × QueryResult m)
      : Type 0 where
    seen : map texts r.0 ≡ texts q.current_row ∷ map (map cell_text) rows
    closed_once : IsClosed q.res r.1

  read_from :
      (rows : List Cells) (n fuel : ℕ) (q : QueryResult m)
      → q.has_result ≡ true
      → law.pending q.res ≡ rows
      → All (λ r. length r ≡ n) rows
      → length q.current_row ≡ n
      → 0 < n
      → length rows < fuel
      → (r : List (List Field) × QueryResult m) × (read_all m fuel q ≡ some r) × Reads rows q r
  unfolding read_all
  read_from rows n zero q is_set e even full some_column enough = absurd (omega arith)
  read_from [] n (suc fuel) q is_set e even full some_column enough = (
    (q.current_row ∷ [], end_query m (end_query m (record q { res = (m.fetch_row q.res).1 }))),
    rw (read_all, fetch-some q (omega arith), next_row-end q is_set e) refl,
    record {
      seen = refl;
      closed_once =
          ended (record q { res = (m.fetch_row q.res).1 }) q.res is_set (law.row_frees q.res);
    },
  )
  read_from (r ∷ rows) n (suc fuel) q is_set e even full some_column enough =
      let (same, long) = texts-next q.current_row r (omega (arith, even.0)) in
      let next : QueryResult m = record q {
        current_row = next_fields q.current_row r;
        res = (m.fetch_row q.res).1;
      } in
      let (out, ran, reads) =
        read_from rows n fuel next is_set (law.at_row q.res r rows e).1 even.1
          (omega (arith, even.0)) some_column (omega arith) in
      (
        (q.current_row ∷ out.0, out.1),
        rw (read_all, fetch-some q (omega arith), next_row-more q r rows is_set e, ran) refl,
        record {
          seen =
              ap (◌∷◌ (texts q.current_row))
                (reads.seen ∙ ap (λ t. t ∷ map (map cell_text) rows) same);
          closed_once = IsClosed-since q.res next.res out.1 (law.row_frees q.res) reads.closed_once;
        },
      )

full_rows :
    (n : ℕ) (rows : List Cells)
    → 0 < n
    → All (λ r. length r ≡ n) rows
    → All (λ x. x ≢ []) (map (map cell_text) rows)
full_rows n [] some_column even = tt
full_rows n ([] ∷ rows) some_column even = absurd (omega (arith, even.0))
full_rows n ((c ∷ r) ∷ rows) some_column even = ((λ e. cc), full_rows n rows some_column even.1)

module _ (m : MysqlRes) (law : IsCursor m) where
  -- The object on its first row.
  abbrev begun : m.State → ℕ → ℕ → Cells → QueryResult m
  begun s rowcount n r = record (fresh_result m s rowcount n) {
    current_row = first_fields n (m.fetch_fields s) r;
    field_names = map (λ (c : Bytes × EnumFieldTypes). c.0) (m.fetch_fields s);
    res = (m.fetch_row s).1;
  }

  new_result-begun :
      (s : m.State) (rowcount n : ℕ) (r : Cells) (rows : List Cells)
      → law.pending s ≡ r ∷ rows
      → new_result m s rowcount n ≡ begun s rowcount n r
  unfolding new_result
  new_result-begun s rowcount n r rows e =
      started-some m (fresh_result m s rowcount n) (m.fetch_row s) r (law.at_row s r rows e).0

  new_result-empty :
      (s : m.State) (rowcount n : ℕ)
      → law.pending s ≡ []
      → new_result m s rowcount n
        ≡ end_query m (record (fresh_result m s rowcount n) { res = (m.fetch_row s).1 })
  unfolding new_result
  new_result-empty s rowcount n e =
      started-none m (fresh_result m s rowcount n) (m.fetch_row s) (law.at_end s e).0

  read_new :
      (s : m.State) (rowcount n fuel : ℕ) (rows : List Cells)
      → law.pending s ≡ rows
      → length (m.fetch_fields s) ≡ n
      → 0 < n
      → All (λ r. length r ≡ n) rows
      → length rows < fuel
      → (r : List (List Field) × QueryResult m) × (read_all m fuel (new_result m s rowcount n)
          ≡ some r)
        × (map texts r.0 ≡ map (map cell_text) rows)
        × IsClosed m law s r.1
  unfolding read_all fetch data_of end_query
  read_new s rowcount n zero rows e wide some_column even enough = absurd (omega arith)
  read_new s rowcount n (suc fuel) [] e wide some_column even enough =
      let empty : QueryResult m = record (fresh_result m s rowcount n) {
        res = (m.fetch_row s).1;
      } in
      (
        ([], end_query m (end_query m empty)),
        ap (read_all m (suc fuel)) (new_result-empty s rowcount n e),
        refl,
        ended m law empty s refl (law.row_frees s),
      )
  read_new s rowcount n (suc fuel) (r ∷ rows) e wide some_column even enough =
      let (same, long) = texts-first n (m.fetch_fields s) r wide even.0 in
      let (out, ran, reads) =
        read_from m law rows n (suc fuel) (begun s rowcount n r) refl (law.at_row s r rows e).1
          even.1 long some_column (omega arith) in
      (
        out,
        ap (read_all m (suc fuel)) (new_result-begun s rowcount n r rows e) ∙ ran,
        reads.seen ∙ ap (λ t. t ∷ map (map cell_text) rows) same,
        IsClosed-since m law s (m.fetch_row s).1 out.1 (law.row_frees s) reads.closed_once,
      )

  -- The loop over a result of rows that have a column each ends when it may turn once more than
  -- there are rows, its body sees in GetString the rows that `read_rows` lists, and afterwards the
  -- MYSQL_RES has been freed once and the object has no row.
  pub read_all-read_rows :
      (s : m.State) (rowcount n fuel : ℕ)
      → length (m.fetch_fields s) ≡ n
      → 0 < n
      → All (λ r. length r ≡ n) (law.pending s)
      → length (law.pending s) < fuel
      → (r : List (List Field) × QueryResult m) × (read_all m fuel (new_result m s rowcount n)
          ≡ some r)
        × (map texts r.0 ≡ read_rows (map (map cell_text) (law.pending s)))
        × IsClosed m law s r.1
  read_all-read_rows s rowcount n fuel wide some_column even enough =
      let rows = law.pending s in
      let (out, ran, seen, closed) =
        read_new s rowcount n fuel rows refl wide some_column even enough in
      (
        out,
        ran,
        seen ∙ sym (read_rows-All (map (map cell_text) rows) (full_rows n rows some_column even)),
        closed,
      )
