-- ===== src/Database/Pool/LastId.antt =====
-- Two statements that belong together, as AddFriendRequest of IMServer/IMServer/UserManager.cpp sends
-- them: an INSERT, and SELECT LAST_INSERT_ID(), which MySQL answers by connection.
use aim_server.Common.{
  ℕ, ◌≡◌, ◌≢◌, refl, sym, ◌∙◌, some, List, ◌∷◌, arith, ap, get_elem?, get_elem?-modify_self,
  get_elem?-modify_ne,
}
use aim_server.Database.Pool.{
  away, waiting, holding, Pool, acquire, release, set_phase, fresh_pool, calls, acquires, releases,
  Run, here, more,
}
use aim_server.Database.Pool.Count.{count}
use aim_server.Database.Pool.Safety.{connection_exclusive}

-- Given back, called again and taken: a thread that is alone has its connection again.
taken_again :
    (p : Pool) (i c : ℕ)
    → get_elem? p.callers i ≡ some (holding c)
    → (q : Pool) × Run p 3 q × (get_elem? q.callers i ≡ some (holding c)) × (q.idle ≡ p.idle)
unfolding release acquire
taken_again p i c h =
    let e1 = get_elem?-modify_self (λ _. away) p.callers i h in
    let free = set_phase i away p.callers in
    let e2 = get_elem?-modify_self (λ _. waiting) free i e1 in
    let asks = set_phase i waiting free in
    (
      _,
      more (more (more here (releases i c h)) (calls i e1)) (acquires i c p.idle e2 refl),
      get_elem?-modify_self (λ _. holding c) asks i e2,
      refl,
    )

-- A thread that waits takes the connection that was given back, and the first thread the next one.
taken_away :
    (p : Pool) (i j c d : ℕ) (rest : List ℕ)
    → i ≢ j
    → get_elem? p.callers i ≡ some (holding c)
    → get_elem? p.callers j ≡ some waiting
    → p.idle ≡ d ∷ rest
    → (q : Pool) × Run p 4 q
      × (get_elem? q.callers j ≡ some (holding c))
      × (get_elem? q.callers i ≡ some (holding d))
unfolding release acquire
taken_away p i j c d rest apart h w idle =
    let others = λ (x : j ≡ i). apart (sym x) in
    let freed = set_phase i away p.callers in
    let freed_i = get_elem?-modify_self (λ _. away) p.callers i h in
    let freed_j = get_elem?-modify_ne (λ _. away) p.callers i j apart ∙ w in
    let taken = set_phase j (holding c) freed in
    let taken_i = get_elem?-modify_ne (λ _. holding c) freed j i others ∙ freed_i in
    let taken_j = get_elem?-modify_self (λ _. holding c) freed j freed_j in
    let asks = set_phase i waiting taken in
    let asks_i = get_elem?-modify_self (λ _. waiting) taken i taken_i in
    let asks_j = get_elem?-modify_ne (λ _. waiting) taken i j apart ∙ taken_j in
    (
      _,
      more
          (more (more (more here (releases i c h)) (acquires j c p.idle freed_j refl))
            (calls i taken_i))
          (acquires i d rest asks_i (rw (idle, acquire) refl)),
      get_elem?-modify_ne (λ _. holding d) asks i j apart ∙ asks_j,
      get_elem?-modify_self (λ _. holding d) asks i asks_i,
    )

-- The back of the idle connections is none that a thread holds.
idle_other :
    (size threads : ℕ) {n : ℕ} {p : Pool}
    → Run (fresh_pool size threads) n p
    → (i c d : ℕ) (rest : List ℕ) → get_elem? p.callers i ≡ some (holding c)
    → p.idle ≡ d ∷ rest
    → d ≢ c
idle_other size threads {p = p} run i c d rest h idle same =
    let (_, free, _) = connection_exclusive size threads run c i i h h in
    let counted : count c (d ∷ rest) ≡ 0 = ap (count c) (sym idle) ∙ free in ground arith

-- A thread that has run a statement and gives its connection back can have the same one for its next
-- statement, if no other takes a step in between. But if another thread waits and there is another
-- idle connection, four steps of the two give the thread that other connection, while its own one is
-- in the hands of the thread that waited.
pub statement_pair :
    (size threads : ℕ) {n : ℕ} {p : Pool}
    → Run (fresh_pool size threads) n p
    → (i j c d : ℕ) (rest : List ℕ) → i ≢ j
    → get_elem? p.callers i ≡ some (holding c)
    → get_elem? p.callers j ≡ some waiting
    → p.idle ≡ d ∷ rest
    → ((q : Pool) × Run p 3 q × (get_elem? q.callers i ≡ some (holding c)))
      × ((q : Pool) × Run p 4 q
          × (get_elem? q.callers j ≡ some (holding c))
          × (get_elem? q.callers i ≡ some (holding d))
          × (d ≢ c))
statement_pair size threads {p = p} run i j c d rest apart h w idle =
    let (q, again, got, _) = taken_again p i c h in
    let (q', between, others, mine) = taken_away p i j c d rest apart h w idle in
    ((q, again, got), (q', between, others, mine, idle_other size threads run i c d rest h idle))
