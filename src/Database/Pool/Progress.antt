-- ===== src/Database/Pool/Progress.antt =====
-- Threads that wait for a connection (IMServer/IMServer/MySqlManager.cpp), and the steps that can
-- give them one.
use aim_server.Common.{
  ℕ, ◌≤◌, ◌<◌, ◌≡◌, refl, ◌∙◌, some, List, [], ◌∷◌, arith, get_elem?, get_elem?-modify_self,
  get_elem?-modify_ne,
}
use aim_server.Database.Pool.{
  away, waiting, holding, Pool, acquire, release, set_phase, fresh_pool, Step, acquires, releases,
  Run, here, more,
}
use aim_server.Database.Pool.Count.{holder}
use aim_server.Database.Pool.Safety.{Accounted, Run-Accounted, fresh_pool-Accounted}

-- A thread that waits gets an idle connection in one step.
take_idle :
    (p : Pool) (c : ℕ) (rest : List ℕ) (i : ℕ)
    → p.idle ≡ c ∷ rest
    → get_elem? p.callers i ≡ some waiting
    → (q : Pool) × Step p q × (get_elem? q.callers i ≡ some (holding c))
unfolding acquire
take_idle p c rest i e w =
    (_, acquires i c rest w (rw (e, acquire)), get_elem?-modify_self (λ _. holding c) p.callers i w)

wait_over :
    (size : ℕ) (p : Pool) (idle : List ℕ) (i : ℕ)
    → p.idle ≡ idle
    → Accounted size p
    → 0 < size
    → get_elem? p.callers i ≡ some waiting
    → (c n : ℕ) × (q : Pool) × Run p n q × (n ≤ 2) × (get_elem? q.callers i ≡ some (holding c))
unfolding release
wait_over size p (c ∷ rest) i e inv some_made w =
    let (q, step, got) = take_idle p c rest i e w in (c, 1, q, more here step, omega arith, got)
wait_over size p [] i e inv some_made w =
    let (j, b) = holder 0 p.callers (ground (arith, inv 0)) in
    let freed : Pool = record { idle = release 0 p.idle; callers = set_phase j away p.callers } in
    let back : freed.idle ≡ 0 ∷ [] = rw (e, release) in
    let still : get_elem? freed.callers i ≡ some waiting =
      get_elem?-modify_ne (λ _. away) p.callers j i (λ same. ground arith) ∙ w in
    let (q, step, got) = take_idle freed 0 [] i back still in
    (0, 2, q, more (more here (releases j 0 b)) step, omega arith, got)

-- Whenever a thread waits, at most two steps can give it a connection: it takes an idle one, or a
-- thread that holds one gives it back first. This is after any steps from a pool that has a
-- connection.
pub wait_ends :
    (size threads : ℕ) {n : ℕ} {p : Pool}
    → Run (fresh_pool size threads) n p
    → 0 < size
    → (i : ℕ) → get_elem? p.callers i ≡ some waiting
    → (c m : ℕ) × (q : Pool) × Run p m q × (m ≤ 2) × (get_elem? q.callers i ≡ some (holding c))
wait_ends size threads {p = p} run some_made i w =
    wait_over size p p.idle i refl (Run-Accounted size (fresh_pool-Accounted size threads) run)
      some_made w
