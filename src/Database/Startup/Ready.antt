-- ===== src/Database/Startup/Ready.antt =====
-- What Init (IMServer/IMServer/MySqlManager.cpp) leaves for Query and Execute.
use aim_server.Common.{
  ℕ, zero, suc, ◌+◌, ◌<◌, ◌≡◌, ◌⊎◌, inl, inr, refl, ap, subst, Bool, true, false, some, List, [],
  ◌∷◌, ◌++◌, arith, length, modify, get_or, ℤ, pos, negsuc, Bytes, Outcome, done, crashed,
  length-append,
}
use aim_server.Database.Client.{Credentials, MysqlClient}
use aim_server.Database.Tool.{MySqlTool, new_tool, Link, connect}
use aim_server.Database.Pool.{acquire, release, connections}
use aim_server.Database.Startup.{
  MySqlManager, pool_size, connect_all, prepare, prepared, opened, with_first, init, lend,
  lend_from, unless_empty, returned,
}
use aim_server.Database.Schema.{TableInfo}

pub pool_size_pos : (n : ℤ) → 0 < pool_size n
unfolding pool_size
pool_size_pos (pos zero) = omega arith
pool_size_pos (pos (suc k)) = omega arith
pool_size_pos (negsuc k) = omega arith

length-modify : {A : Type 0} (f : A → A) (xs : List A) (i : ℕ) → length (modify f xs i) ≡ length xs
length-modify f [] i = refl
length-modify f (x ∷ xs) zero = refl
length-modify f (x ∷ xs) (suc i) = omega (arith, length-modify f xs i)

module _ (m : MysqlClient) where
  -- The pool holds that many connections, and all of them are idle.
  pub record IsReady (size : ℕ) (mgr : MySqlManager m) : Type 0 where
    pub some_made : 0 < size
    pub made : length mgr.pool ≡ size
    pub all_idle : mgr.idle ≡ connections size

module _ (m : MysqlClient) where
  connect_all-length :
      (c : Credentials) (n : ℕ) (pool : List MySqlTool) (srv : m.Server)
      → (connect_all m c n pool srv).0 ≡ true
      → length (connect_all m c n pool srv).1.0 ≡ length pool + n
  unfolding connect_all
  connect_all-length c zero pool srv ok = omega arith
  connect_all-length c (suc n) pool srv ok =
      let l = (connect m c (new_tool, srv)).1 in
      ground (arith, connect_all-length c n (pool ++ l.0 ∷ []) l.1, length-append pool (l.0 ∷ []))

  prepared-IsReady :
      (size : ℕ) (pool : List MySqlTool) (o : Outcome (Bool × Link m)) (mgr : MySqlManager m)
      → 0 < size
      → length pool ≡ size
      → prepared m pool o ≡ done (true, mgr)
      → IsReady m size mgr
  unfolding prepared with_first
  prepared-IsReady size pool crashed mgr some_made made e = cc
  prepared-IsReady size pool (done (ok, l)) mgr some_made made e =
      let same : (with_first m pool (ok, l)).1 ≡ mgr = cc in
      subst (IsReady m size) same (record {
        some_made = some_made;
        made = omega (arith, made, length-modify (λ _. l.0) pool 0);
        all_idle = ap connections made;
      })

  opened-IsReady :
      (tables : List (Bytes × TableInfo)) (size : ℕ) (r : Bool × (List MySqlTool × m.Server))
      (mgr : MySqlManager m)
      → 0 < size
      → (r.0 ≡ true → length r.1.0 ≡ size)
      → opened m tables r ≡ done (true, mgr)
      → IsReady m size mgr
  unfolding opened
  opened-IsReady tables size (false, (pool, srv)) mgr some_made made e = cc
  opened-IsReady tables size (true, (pool, srv)) mgr some_made made e =
      prepared-IsReady size pool (prepare m tables (get_or pool 0 new_tool, srv)) mgr some_made
        (made refl) e

  pub init-IsReady :
      (tables : List (Bytes × TableInfo)) (c : Credentials) (n : ℤ) (srv : m.Server)
      (mgr : MySqlManager m)
      → init m tables c n srv ≡ done (true, mgr)
      → IsReady m (pool_size n) mgr
  unfolding init
  init-IsReady tables c n srv mgr e =
      opened-IsReady tables (pool_size n) (connect_all m c (pool_size n) [] srv) mgr
        (pool_size_pos n) (λ ok. omega (arith, connect_all-length c (pool_size n) [] srv ok)) e

  -- The connection at the back of the idle ones is used, and the others stay as they are.
  taken :
      {A : Type 0} (k : ℕ) (mgr : MySqlManager m) (use_link : Link m → Outcome (A × Link m)) (a : A)
      (l' : Link m)
      → mgr.idle ≡ connections (suc k)
      → use_link (get_or mgr.pool k new_tool, mgr.server) ≡ done (a, l')
      → lend m use_link mgr
        ≡ some (
            done (
              a,
              record {
                pool = modify (λ _. l'.0) mgr.pool k;
                idle = release k (connections k);
                server = l'.1;
              },
            ))
  unfolding lend lend_from returned acquire connections
  taken k mgr use_link a l' idle ran = rw (idle, lend_from) (rw (ran, returned) refl)

  pub lend-IsReady :
      {A : Type 0} (P : A → Type 0) (size : ℕ) (mgr : MySqlManager m)
      (use_link : Link m → Outcome (A × Link m))
      → IsReady m size mgr
      → ((l : Link m) → (a : A) × ((l' : Link m) × (use_link l ≡ done (a, l')) × P a))
      → (a : A) × ((mgr' : MySqlManager m) × (lend m use_link mgr ≡ some (done (a, mgr')))
          × IsReady m size mgr'
          × P a)
  unfolding release connections
  lend-IsReady P zero mgr use_link ready runs = absurd (omega (arith, ready.some_made))
  lend-IsReady P (suc k) mgr use_link ready runs =
      let (a, rest) = runs (get_or mgr.pool k new_tool, mgr.server) in
      let (l', ran, holds) = rest in
      (
        a,
        (
          record {
            pool = modify (λ _. l'.0) mgr.pool k;
            idle = release k (connections k);
            server = l'.1;
          },
          taken k mgr use_link a l' ready.all_idle ran,
          record {
            some_made = omega arith;
            made = omega (arith, ready.made, length-modify (λ _. l'.0) mgr.pool k);
            all_idle = refl;
          },
          holds,
        ),
      )

  pub unless_empty_lem :
      {A : Type 0} (pool : List MySqlTool) (early go : A)
      → 0 < length pool
      → unless_empty m pool early go ≡ go
  unfolding unless_empty
  unless_empty_lem [] early go some_made = absurd (omega arith)
  unless_empty_lem (t ∷ pool) early go some_made = refl

  -- A call on a ready pool ends as it does on the connection that it takes.
  pub lend_ends :
      {A : Type 0} (Q : Link m → Type 0) (size : ℕ) (mgr : MySqlManager m)
      (use_link : Link m → Outcome (A × Link m))
      → IsReady m size mgr
      → ((l : Link m)
          → ((a : A) × (l' : Link m) × (use_link l ≡ done (a, l')))
            ⊎ ((use_link l ≡ crashed) × Q l))
      → ((a : A) × (mgr' : MySqlManager m) × (lend m use_link mgr ≡ some (done (a, mgr')))
          × IsReady m size mgr')
        ⊎ ((lend m use_link mgr ≡ some crashed)
            × ((c : ℕ) × (c < size) × Q (get_or mgr.pool c new_tool, mgr.server)))
  unfolding release connections lend lend_from returned acquire
  lend_ends Q zero mgr use_link ready ends = absurd (omega (arith, ready.some_made))
  lend_ends Q (suc k) mgr use_link ready ends =
      elim (ends (get_or mgr.pool k new_tool, mgr.server)) [
        | inl (a, l', ran) ↦ inl (
          a,
          record {
            pool = modify (λ _. l'.0) mgr.pool k;
            idle = release k (connections k);
            server = l'.1;
          },
          taken k mgr use_link a l' ready.all_idle ran,
          record {
            some_made = omega arith;
            made = omega (arith, ready.made, length-modify (λ _. l'.0) mgr.pool k);
            all_idle = refl;
          },
        )
        | inr (died, why) ↦
            inr (rw (ready.all_idle, lend_from) (rw (died, returned) refl), (k, omega arith, why))
      ]
