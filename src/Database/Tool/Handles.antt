-- ===== src/Database/Tool/Handles.antt =====
-- The connection that a MySQLTool has behind a statement (IMServer/IMServer/mysqltool.cpp).
use aim_server.Common.{
  Outcome, crashed, ◌⊎◌, inl, inr, ℕ, ◌≡◌, refl, ap, ◌∙◌, Bool, true, false, Option, none, some,
  List, arith, Bytes, if◌then◌else◌, if-elim, ◌==◌, done,
}
use aim_server.Env.{Row}
use aim_server.Database.Client.{Credentials, MysqlClient}
use aim_server.Database.Tool.{
  MySqlTool, Link, own_credentials, c_credentials, close_old, connected, connect, reconnect,
  send_with, send_on, again, judged, first, ready, attempt, stored, query, cr_server_gone_error,
}
use aim_server.Database.Tool.Laws.{stored-held, result_of_lem}

module _ (m : MysqlClient) where
  -- If the answer is true, the tool holds a connection.
  abbrev Held : Bool × Link m → Type 0
  Held r = r.0 ≡ true → (h : ℕ) × (r.1.0.mysql ≡ some h)

  connected-Held :
      (c : Credentials) (t : MySqlTool) (r : Option ℕ × m.Server) → Held (connected m c t r)
  unfolding connected
  connected-Held c t (none, srv) h = absurd (ground arith)
  connected-Held c t (some x, srv) h = (x, refl)

  reconnect-Held : (l : Link m) → Held (reconnect m l)
  unfolding reconnect connect
  reconnect-Held (t, srv) =
      let c = own_credentials t in
      connected-Held c t (m.real_connect (c_credentials c) (close_old m t.mysql srv))

  -- Sending leaves the tool as it is.
  send_with-tool :
      (send : ℕ → m.Server → Option ℕ × m.Server) (o : Option ℕ) (t : MySqlTool) (srv : m.Server)
      → (send_with m send o (t, srv)).1.0 ≡ t
  unfolding send_with
  send_with-tool send none t srv = refl
  send_with-tool send (some h) t srv = refl

  send_on-held :
      (send : ℕ → m.Server → Option ℕ × m.Server) (l : Link m) (h : ℕ)
      → l.0.mysql ≡ some h
      → (send_on m send l).1.0.mysql ≡ some h
  unfolding send_on
  send_on-held send (t, srv) h held =
      ap (λ (t' : MySqlTool). t'.mysql) (send_with-tool send t.mysql t srv) ∙ held

  retried :
      (o : Option ℕ) (l : Link m) (h : ℕ)
      → l.0.mysql ≡ some h
      → Held (elim o [ none ↦ (true, l) | some _ ↦ (false, l) ])
  retried none l h held ok = (h, held)
  retried (some x) l h held ok = absurd (ground arith)

  again-Held :
      (send : ℕ → m.Server → Option ℕ × m.Server) (r : Bool × Link m)
      → Held r
      → Held (again m send r)
  unfolding again
  again-Held send (false, l) held = held
  again-Held send (true, l) held =
      let (h, e) = held refl in
      retried (send_on m send l).0 (send_on m send l).1 h (send_on-held send l h e)

  judged-Held :
      (send : ℕ → m.Server → Option ℕ × m.Server) (r : Option ℕ × Link m) (h : ℕ)
      → r.1.0.mysql ≡ some h
      → Held (judged m send r)
  unfolding judged
  judged-Held send (none, l) h e = λ _. (h, e)
  judged-Held send (some errno, l) h e =
      if-elim Held (errno == cr_server_gone_error) (again m send (reconnect m l)) (false, l)
        (λ _. again-Held send (reconnect m l) (reconnect-Held l)) (λ _ ok. absurd (ground arith))

  first-Held :
      (send : ℕ → m.Server → Option ℕ × m.Server) (r : Bool × Link m)
      → Held r
      → Held (first m send r)
  unfolding first
  first-Held send (false, l) held = held
  first-Held send (true, l) held =
      let (h, e) = held refl in judged-Held send (send_on m send l) h (send_on-held send l h e)

  ready-Held : (o : Option ℕ) (l : Link m) → l.0.mysql ≡ o → Held (ready m o l)
  unfolding ready
  ready-Held none l e = reconnect-Held l
  ready-Held (some h) l e = λ _. (h, e)

  attempt-Held : (send : ℕ → m.Server → Option ℕ × m.Server) (l : Link m) → Held (attempt m send l)
  unfolding attempt
  attempt-Held send l = first-Held send (ready m l.0.mysql l) (ready-Held l.0.mysql l refl)

  -- A statement of Query is run on a connection whose result is then NULL.
  abbrev pub Resultless : Bytes → Link m → Type 0
  Resultless sql l =
      let ran = (attempt m (λ h srv. m.real_query h sql srv) l).1 in
      (h : ℕ) × (ran.0.mysql ≡ some h) × ((m.store_result h ran.1).0 ≡ none)

  -- A call comes to an end, or dies of a result that is NULL.
  abbrev Ends : Link m → Outcome (Option (List Row) × Link m) → Type 0
  Ends ran r =
      ((o : Option (List Row)) × (l' : Link m) × (r ≡ done (o, l')))
      ⊎ ((r ≡ crashed) × ((h : ℕ) × (ran.0.mysql ≡ some h) × ((m.store_result h ran.1).0 ≡ none)))

  answered :
      (r : Bool × Link m) → Held r → Ends r.1 (if r.0 then stored m r.1 else done (none, r.1))
  answered (false, l) held = inl (none, l, refl)
  answered (true, (t, srv)) held =
      let (h, e) = held refl in
      let e1 = stored-held m t srv h e in
      elim (result_of_lem m t (m.store_result h srv)) [
        | inl (rows, ended) ↦ inl (some rows, (t, (m.store_result h srv).1), e1 ∙ ended)
        | inr (died, null) ↦ inr (e1 ∙ died, (h, e, null))
      ]

  query-attempt :
      (sql : Bytes) (l : Link m) (r : Bool × Link m)
      → attempt m (λ h srv. m.real_query h sql srv) l ≡ r
      → query m sql l ≡ (if r.0 then stored m r.1 else done (none, r.1))
  unfolding query
  query-attempt sql l r e = rw (e, query) refl

  pub query_ends :
      (sql : Bytes) (l : Link m)
      → ((o : Option (List Row)) × (l' : Link m) × (query m sql l ≡ done (o, l')))
        ⊎ ((query m sql l ≡ crashed) × Resultless sql l)
  query_ends sql l =
      let send : ℕ → m.Server → Option ℕ × m.Server = λ h srv. m.real_query h sql srv in
      let e1 = query-attempt sql l (attempt m send l) refl in
      elim (answered (attempt m send l) (attempt-Held send l)) [
        | inl (o, l', e) ↦ inl (o, l', e1 ∙ e)
        | inr (died, why) ↦ inr (e1 ∙ died, why)
      ]
