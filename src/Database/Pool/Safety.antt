-- ===== src/Database/Pool/Safety.antt =====
-- What holds of the pool (IMServer/IMServer/MySqlManager.cpp) however the threads interleave.
use aim_server.Common.{ℕ, ◌+◌, ◌<◌, ◌≡◌, some, arith, ltb, if◌then◌else◌, get_elem?}
use aim_server.Database.Pool.{
  away, waiting, holding, Pool, acquire, release, fresh_pool, Step, calls, acquires, releases, Run,
  here, more,
}
use aim_server.Database.Pool.Count.{
  count, held, held-set_phase, held_once, holds-held, held-replicate, count-connections,
}

-- Each connection of Init is idle or held by one thread, never both, and there is no other.
abbrev pub Accounted : ℕ → Pool → Type 0
Accounted size p = (c : ℕ) → count c p.idle + held c p.callers ≡ (if ltb c size then 1 else 0)

pub fresh_pool-Accounted : (size threads : ℕ) → Accounted size (fresh_pool size threads)
fresh_pool-Accounted size threads c =
    omega (arith, count-connections c size, held-replicate c threads)

Step-Accounted : (size : ℕ) {p q : Pool} → Accounted size p → Step p q → Accounted size q
unfolding acquire release
Step-Accounted size {p = p} inv (calls i e) c =
    omega (arith, inv c, held-set_phase c i waiting away p.callers e)
Step-Accounted size {p = p} inv (acquires i x rest e taken) c =
    ground (arith, inv c, held-set_phase c i (holding x) waiting p.callers e)
Step-Accounted size {p = p} inv (releases i x e) c =
    omega (arith, inv c, held-set_phase c i away (holding x) p.callers e)

pub Run-Accounted :
    (size : ℕ) {p : Pool} {n : ℕ} {q : Pool} → Accounted size p → Run p n q → Accounted size q
Run-Accounted size inv here = inv
Run-Accounted size inv (more run step) = Step-Accounted size (Run-Accounted size inv run) step

-- Two threads never use one connection at the same time, and a connection that is in use is not
-- idle and is one of those that Init made: after any steps of any threads from the fresh pool.
pub connection_exclusive :
    (size threads : ℕ) {n : ℕ} {q : Pool}
    → Run (fresh_pool size threads) n q
    → (c i j : ℕ) → get_elem? q.callers i ≡ some (holding c)
    → get_elem? q.callers j ≡ some (holding c)
    → (i ≡ j) × (count c q.idle ≡ 0) × (c < size)
connection_exclusive size threads {q = q} run c i j hi hj =
    let inv = Run-Accounted size (fresh_pool-Accounted size threads) run c in
    (
      held_once c i j q.callers (ground arith) hi hj,
      ground (arith, holds-held c i q.callers),
      ground (arith, holds-held c i q.callers),
    )
