-- ===== src/Tests/Schema.antt =====
-- The theorems on the start of the database, at servers that answer "desc" as MySQL does for a
-- small table.
use mathlib.Core.List.{flatten}
use aim_server.Common.{
  ℕ, ◌≡◌, refl, subst, ◌≢◌, ◌||◌, inl, true, false, none, some, List, [], ◌∷◌, ◌++◌, arith,
  if◌then◌else◌, ◌==◌, Bytes, text, pos, done, bytes_eq_iff,
}
use aim_server.Env.{Row}
use aim_server.Proto.{ChatMsg}
use aim_server.Users.History.{save_chat_msg_sql, save_chat_msg_start}
use aim_server.Users.History.Cut.{save_chat_msg_cut}
use aim_server.Text.Sql.{escape_sql_string}
use aim_server.Database.Client.{MysqlClient}
use aim_server.Database.Tool.{Link, connected_tool, query, execute}
use aim_server.Database.Fields.{find}
use aim_server.Database.Schema.{
  FieldInfo, TableInfo, survey, create_table, check_table, update_table,
}
use aim_server.Database.Schema.Columns.{listed, changed, AsDeclared, survey_lem, survey-AsDeclared}
use aim_server.Database.Schema.Repair.{repairs, run_all, desc_sql, update_table_lem}
use aim_server.Fixtures.{empty_chat}

abbrev remark : FieldInfo
remark = record {
  name = text "f_remark";
  type = text "varchar(64) NULL";
  desc = text "varchar(64)";
}

abbrev pub notes : TableInfo
notes = record {
  name = text "t_notes";
  fields = (text "f_remark", remark) ∷ [];
  key = text "PRIMARY KEY (f_remark)";
}

-- What "desc t_notes" gives for the table that the server has made itself.
abbrev notes_rows : List Row
notes_rows = (text "f_remark" ∷ text "varchar(64)" ∷ []) ∷ []

survey_lem_example :
    (find (text "f_remark") (survey notes notes_rows).rest
      ≡ (if listed (text "f_remark") notes_rows then none else find (text "f_remark") notes.fields))
    × (find (text "f_remark") (survey notes notes_rows).map_change
        ≡ changed (text "f_remark") (find (text "f_remark") notes.fields) notes_rows)
survey_lem_example = survey_lem (text "f_remark") notes notes_rows ((λ e. cc), tt)

notes-AsDeclared : AsDeclared notes notes_rows
unfolding find
notes-AsDeclared k f e = inl (ground (arith, bytes_eq_iff (text "f_remark") k))

remark_differs : remark.type ≢ remark.desc
unfolding text
remark_differs e = cc

notes_differ : (k : Bytes) (f : FieldInfo) → find k notes.fields ≡ some f → f.type ≢ f.desc
unfolding find
notes_differ k f e =
    let same : remark ≡ f = ground (arith, bytes_eq_iff (text "f_remark") k) in
    subst (λ (g : FieldInfo). g.type ≢ g.desc) same remark_differs

survey-AsDeclared_example :
    find (text "f_remark") (survey notes notes_rows).map_change
    ≡ find (text "f_remark") notes.fields
survey-AsDeclared_example =
    survey-AsDeclared notes notes_rows ((λ e. cc), tt) notes-AsDeclared notes_differ
      (text "f_remark")

-- A server that runs the statements "desc" and "create", but no other.
abbrev reserved_server : MysqlClient
reserved_server = record {
  Server = ℕ;
  real_connect = λ _ n. (some n, n);
  close = λ _ n. n;
  real_query = λ _ sql n. elim sql [
    | [] ↦ (some 1064, n)
    | c ∷ _ ↦ (if (c == b'd') || (c == b'c') then none else some 1142, n)
  ];
  store_result = λ _ n. (some notes_rows, n);
  affected_rows = λ _ _. 1;
}

abbrev root_link : Link reserved_server
root_link = (
  connected_tool 0
      (record { host = []; user = text "root"; password = []; dbname = text "myim"; port = 3306 }),
  0,
)

desc_answered : query reserved_server (desc_sql notes) root_link ≡ done (some notes_rows, root_link)
unfolding query text flatten
desc_answered = refl

update_table_lem_example :
    (check_table reserved_server notes root_link
      ≡ done (run_all reserved_server (repairs notes (survey notes notes_rows)) root_link))
    × ((l2 : Link reserved_server)
        → run_all reserved_server (repairs notes (survey notes notes_rows)) root_link ≡ (false, l2)
        → (create_table reserved_server notes l2).0 ≡ true
        → update_table reserved_server notes root_link
          ≡ done (true, (create_table reserved_server notes l2).1))
update_table_lem_example =
    update_table_lem reserved_server notes root_link root_link notes_rows desc_answered

-- "ab", a NUL, and "c".
abbrev torn : ChatMsg
torn = record empty_chat { content = text "ab" ++ 0 ∷ text "c" }

save_chat_msg_cut_example :
    execute reserved_server (save_chat_msg_sql (pos 1) (pos 2) torn) root_link
    ≡ execute reserved_server
        (flatten (save_chat_msg_start (pos 1) (pos 2) ++ escape_sql_string (text "ab") ∷ []))
        root_link
save_chat_msg_cut_example =
    save_chat_msg_cut reserved_server (pos 1) (pos 2) torn (text "ab") (text "c") root_link refl
