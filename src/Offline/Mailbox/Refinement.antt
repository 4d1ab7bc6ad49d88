-- ===== src/Offline/Mailbox/Refinement.antt =====
-- MsgCacheManager (IMServer/IMServer/MsgCacheManager.cpp) on the table t_offline_msg, and the mailbox.
use mathlib.Core.Path.{ap₂}
use aim_server.Common.{
  ◌≡◌, refl, sym, ap, subst, ◌∙◌, ◌≢◌, ◌⊎◌, inl, inr, Bool-cases, Bool, true, false, Option, none,
  some, List, [], ◌∷◌, ◌++◌, map, append_assoc, append-nil, All, All-append, if◌then◌else◌, Bytes,
  IsBytes, ℤ,
}
use aim_server.Env.{Env, Row}
use aim_server.Query.{read_rows, read_rows-All, field}
use aim_server.Text.Hex.{to_hex, from_hex, from_hex-to_hex}
use aim_server.Offline.{
  insert_offline_sql, select_offline_sql, delete_offline_sql, insert_offline_msg, delete_found,
  decode_found, fetch_and_delete_offline_msg,
}
use aim_server.Offline.Mailbox.{
  OfflineTable, Refusal, insert_text, select_text, delete_text, repeats, Op, store, fetch, Event,
  fetched, Mailbox, rests, keeps, loses, hands_out, fails, stored_of, fetched_of, OpIsBytes,
  stored_event, do_op, run,
}

-- In a mailbox without refusals each message that is stored is given out or still there, once and
-- in order.
Mailbox-conserves :
    {refusal : Type 0} {q : List Bytes} {es : List Event} {r : List Bytes}
    → (refusal → ⊥)
    → Mailbox refusal q es r
    → fetched_of es ++ r ≡ q ++ stored_of es
unfolding stored_of fetched_of
Mailbox-conserves {q = q} never rests = sym (append-nil q)
Mailbox-conserves {q = q} never (keeps {es = es} b m) =
    Mailbox-conserves never m ∙ append_assoc q (b ∷ []) (stored_of es)
Mailbox-conserves never (loses b m) = Mailbox-conserves never m
Mailbox-conserves never (hands_out {es = es} {r = r} bs e m) =
    append_assoc bs (fetched_of es) r
    ∙ (ap (λ t. bs ++ t) (Mailbox-conserves never m) ∙ ap (λ t. t ++ stored_of es) e)
Mailbox-conserves never (fails m) = Mailbox-conserves never m
Mailbox-conserves never (repeats bs refused e m) = absurd (never refused)

-- The laws of the table at the statements of MsgCacheManager.
module _ (e : Env) (userid msgtype : ℤ) (table : OfflineTable e userid msgtype) where
  pub insert_lem :
      (blob : Bytes) (x : e.State)
      → IsBytes blob
      → table.queue (e.execute (insert_offline_sql userid msgtype blob) x).1 ≡ (
          if (e.execute (insert_offline_sql userid msgtype blob) x).0
          then table.queue x ++ blob ∷ []
          else table.queue x)
  unfolding insert_offline_sql insert_text
  insert_lem = table.at_insert

  pub select_lem :
      (x : e.State)
      → ((e.query (select_offline_sql userid msgtype) x).0 ≡ none)
        ⊎ ((e.query (select_offline_sql userid msgtype) x).0
            ≡ some (map (λ b. to_hex b ∷ []) (table.queue x)))
  unfolding select_offline_sql select_text
  select_lem = table.at_select

  after_select_lem :
      (x : e.State) → table.queue (e.query (select_offline_sql userid msgtype) x).1 ≡ table.queue x
  unfolding select_offline_sql select_text
  after_select_lem = table.after_select

  -- A DELETE empties the queue, or is refused and leaves it.
  delete_lem :
      (x : e.State)
      → (table.queue (e.execute (delete_offline_sql userid msgtype) x).1 ≡ [])
        ⊎ ((table.queue (e.execute (delete_offline_sql userid msgtype) x).1 ≡ table.queue x)
            × Refusal e userid msgtype)
  unfolding delete_offline_sql delete_text
  delete_lem x = elim (Bool-cases (e.execute (delete_text userid msgtype) x).0) [
    | inl ok ↦ inl (table.at_delete x ∙ ap (λ b. if b then [] else table.queue x) ok)
    | inr refused ↦
        inr (table.at_delete x ∙ ap (λ b. if b then [] else table.queue x) refused, (x, refused))
  ]

module _ (e : Env) (userid msgtype : ℤ) (table : OfflineTable e userid msgtype) where
  decode_each :
      (bs : List Bytes)
      → All IsBytes bs
      → map (λ (row : Row). from_hex (field row 0)) (map (λ (b : Bytes). to_hex b ∷ []) bs) ≡ bs
  decode_each [] h = refl
  decode_each (b ∷ bs) h = ap₂ ◌∷◌ (from_hex-to_hex b h.0) (decode_each bs h.1)

  one_column : (bs : List Bytes) → All (λ (r : Row). r ≢ []) (map (λ (b : Bytes). to_hex b ∷ []) bs)
  one_column [] = tt
  one_column (b ∷ bs) = (λ e. cc, one_column bs)

  -- What is left of the contents: nothing, or all of them after a refusal.
  abbrev pub Left : List Bytes → e.State → Type 0
  Left q x = (table.queue x ≡ []) ⊎ ((table.queue x ≡ q) × Refusal e userid msgtype)

  -- A fetch that finds these messages gives them.
  delete_found_lem :
      (bs q : List Bytes) (x : e.State)
      → bs ≡ q
      → table.queue x ≡ q
      → ((delete_found e userid msgtype bs x).0 ≡ q) × Left q (delete_found e userid msgtype bs x).1
  unfolding delete_found
  delete_found_lem [] q x same held = (same, inl (held ∙ sym same))
  delete_found_lem (b ∷ bs) q x same held = elim (delete_lem e userid msgtype table x) [
    | inl empty ↦ (same, inl empty)
    | inr (all, refused) ↦ (same, inr (all ∙ held, refused))
  ]

  decode_found-some :
      (q : List Bytes) (r : Option (List Row) × e.State)
      → All IsBytes q
      → table.queue r.1 ≡ q
      → r.0 ≡ some (map (λ b. to_hex b ∷ []) q)
      → ((decode_found e userid msgtype r).0 ≡ q) × Left q (decode_found e userid msgtype r).1
  unfolding decode_found
  decode_found-some q (none, x) h held answer = absurd (cc)
  decode_found-some q (some rows, x) h held answer =
      let decode = map (λ (row : Row). from_hex (field row 0)) in
      let same : rows ≡ map (λ b. to_hex b ∷ []) q = cc in
      let decoded : decode (read_rows rows) ≡ q =
        ap (λ rs. decode (read_rows rs)) same
        ∙ (ap decode (read_rows-All (map (λ b. to_hex b ∷ []) q) (one_column q))
            ∙ decode_each q h) in
      delete_found_lem (decode (read_rows rows)) q x decoded held

  -- A fetch whose SELECT is answered gives the messages.
  pub fetch_answered :
      (x : e.State)
      → All IsBytes (table.queue x)
      → (e.query (select_offline_sql userid msgtype) x).0
        ≡ some (map (λ b. to_hex b ∷ []) (table.queue x))
      → ((fetch_and_delete_offline_msg e userid msgtype x).0 ≡ table.queue x)
        × Left (table.queue x) (fetch_and_delete_offline_msg e userid msgtype x).1
  unfolding fetch_and_delete_offline_msg
  fetch_answered x h answer =
      decode_found-some (table.queue x) (e.query (select_offline_sql userid msgtype) x) h
        (after_select_lem e userid msgtype table x) answer

  -- What a fetch gives and leaves, by the contents before it.
  abbrev Fetched : List Bytes → List Bytes × e.State → Type 0
  Fetched q r = ((r.0 ≡ q) × Left q r.1) ⊎ ((r.0 ≡ []) × (table.queue r.1 ≡ q))

  decode_found-none :
      (r : Option (List Row) × e.State) → r.0 ≡ none → decode_found e userid msgtype r ≡ ([], r.1)
  unfolding decode_found
  decode_found-none (none, x) answer = refl
  decode_found-none (some rows, x) answer = absurd (cc)

  fetch_lem :
      (x : e.State)
      → All IsBytes (table.queue x)
      → Fetched (table.queue x) (fetch_and_delete_offline_msg e userid msgtype x)
  unfolding fetch_and_delete_offline_msg
  fetch_lem x h = elim (select_lem e userid msgtype table x) [
    | inl no_answer ↦
        let r = e.query (select_offline_sql userid msgtype) x in
        let nothing = decode_found-none r no_answer in
        inr (
          ap (λ p. p.0) nothing,
          ap (λ p. table.queue p.1) nothing ∙ after_select_lem e userid msgtype table x,
        )
    | inr answer ↦ inl (fetch_answered x h answer)
  ]

  abbrev Boxed : List Bytes → List Event → List Bytes → Type 0
  Boxed = Mailbox (Refusal e userid msgtype)

  stored_lem :
      (b : Bytes) (r : Bool × e.State) (q : List Bytes) (es : List Event) (t : List Bytes)
      → table.queue r.1 ≡ (if r.0 then q ++ b ∷ [] else q)
      → Boxed (table.queue (stored_event e userid msgtype b r).1) es t
      → Boxed q ((stored_event e userid msgtype b r).0 ∷ es) t
  unfolding stored_event
  stored_lem b (true, x) q es t held m = keeps b (subst (λ p. Boxed p es t) held m)
  stored_lem b (false, x) q es t held m = loses b (subst (λ p. Boxed p es t) held m)

  fetched_lem :
      (q : List Bytes) (r : List Bytes × e.State) (es : List Event) (t : List Bytes)
      → Fetched q r
      → Boxed (table.queue r.1) es t
      → Boxed q (fetched r.0 ∷ es) t
  fetched_lem q r es t (inl (same, inl empty)) m =
      hands_out r.0 same (subst (λ p. Boxed p es t) empty m)
  fetched_lem q r es t (inl (same, inr (held, refused))) m =
      repeats r.0 refused same (subst (λ p. Boxed p es t) held m)
  fetched_lem q r es t (inr (nothing, held)) m =
      subst (λ bs. Boxed q (fetched bs ∷ es) t) (sym nothing)
        (fails (subst (λ p. Boxed p es t) held m))

  do_op-Mailbox :
      (op : Op) (x : e.State) (es : List Event) (t : List Bytes)
      → OpIsBytes op
      → All IsBytes (table.queue x)
      → Boxed (table.queue (do_op e userid msgtype op x).1) es t
      → Boxed (table.queue x) ((do_op e userid msgtype op x).0 ∷ es) t
  unfolding do_op insert_offline_msg
  do_op-Mailbox (store b) x es t h held m =
      stored_lem b (insert_offline_msg e userid msgtype b x) (table.queue x) es t
        (insert_lem e userid msgtype table b x h) m
  do_op-Mailbox fetch x es t h held m =
      fetched_lem (table.queue x) (fetch_and_delete_offline_msg e userid msgtype x) es t
        (fetch_lem x held) m

  stored-IsBytes :
      (b : Bytes) (r : Bool × e.State) (q : List Bytes)
      → IsBytes b
      → All IsBytes q
      → table.queue r.1 ≡ (if r.0 then q ++ b ∷ [] else q)
      → All IsBytes (table.queue (stored_event e userid msgtype b r).1)
  unfolding stored_event
  stored-IsBytes b (true, x) q h held e' =
      subst (All IsBytes) (sym e') (All-append IsBytes q (b ∷ []) held (h, tt))
  stored-IsBytes b (false, x) q h held e' = subst (All IsBytes) (sym e') held

  Fetched-IsBytes :
      (q : List Bytes) (r : List Bytes × e.State)
      → All IsBytes q
      → Fetched q r
      → All IsBytes (table.queue r.1)
  Fetched-IsBytes q r held (inl (same, inl empty)) = subst (All IsBytes) (sym empty) tt
  Fetched-IsBytes q r held (inl (same, inr (all, refused))) = subst (All IsBytes) (sym all) held
  Fetched-IsBytes q r held (inr (nothing, kept)) = subst (All IsBytes) (sym kept) held

  do_op-IsBytes :
      (op : Op) (x : e.State)
      → OpIsBytes op
      → All IsBytes (table.queue x)
      → All IsBytes (table.queue (do_op e userid msgtype op x).1)
  unfolding do_op insert_offline_msg
  do_op-IsBytes (store b) x h held =
      stored-IsBytes b (insert_offline_msg e userid msgtype b x) (table.queue x) h held
        (insert_lem e userid msgtype table b x h)
  do_op-IsBytes fetch x h held =
      Fetched-IsBytes (table.queue x) (fetch_and_delete_offline_msg e userid msgtype x) held
        (fetch_lem x held)

  pub run-Mailbox :
      (ops : List Op) (x : e.State)
      → All OpIsBytes ops
      → All IsBytes (table.queue x)
      → Mailbox
          (Refusal e userid msgtype)
          (table.queue x)
          (run e userid msgtype ops x).0
          (table.queue (run e userid msgtype ops x).1)
  unfolding run
  run-Mailbox [] x h held = rests
  run-Mailbox (op ∷ ops) x h held =
      let x' = (do_op e userid msgtype op x).1 in
      do_op-Mailbox op x (run e userid msgtype ops x').0 _ h.0 held
        (run-Mailbox ops x' h.1 (do_op-IsBytes op x h.0 held))

  -- Whatever is stored and fetched in whatever order, on a table of byte strings, if the server
  -- refuses no DELETE of the table: each message that was accepted is handed out exactly once and in
  -- the order of storing, or is in the table still.
  pub delivered_once :
      (ops : List Op) (x : e.State)
      → (Refusal e userid msgtype → ⊥)
      → All OpIsBytes ops
      → All IsBytes (table.queue x)
      → fetched_of (run e userid msgtype ops x).0 ++ table.queue (run e userid msgtype ops x).1
        ≡ table.queue x ++ stored_of (run e userid msgtype ops x).0
  delivered_once ops x never h held = Mailbox-conserves never (run-Mailbox ops x h held)
