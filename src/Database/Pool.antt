-- ===== src/Database/Pool.antt =====
-- The connection pool of MySqlManager (IMServer/IMServer/MySqlManager.cpp): acquire and release
-- under m_poolMutex, and the threads that call Query and Execute.
pub mod Count
pub mod Safety
pub mod Progress
pub mod LastId
use aim_server.Common.{
  ℕ, zero, suc, ◌+◌, ◌≡◌, Option, none, some, List, [], ◌∷◌, length, get_elem?, modify, replicate,
}

-- Where a thread is in Query or Execute. A connection is named by its place in m_pool.
pub data Phase : Type 0 where
  away : Phase
  waiting : Phase
  holding : ℕ → Phase

-- `idle` is m_idle from its back on; the callers are the IO threads.
pub record Pool : Type 0 where
  pub idle : List ℕ
  pub callers : List Phase

-- acquire: the back of m_idle. With none idle it waits on m_poolCv, which is `none` here.
unfoldable pub acquire : List ℕ → Option (ℕ × List ℕ)
acquire [] = none
acquire (c ∷ cs) = some (c, cs)

-- release.
unfoldable pub release : ℕ → List ℕ → List ℕ
release c idle = c ∷ idle

-- The connections that Init puts into m_idle, the last one at its back.
unfoldable pub connections : ℕ → List ℕ
connections zero = []
connections (suc n) = n ∷ connections n

abbrev pub set_phase : ℕ → Phase → List Phase → List Phase
set_phase i phase callers = modify (λ _. phase) callers i

-- After Init, with a number of connections and a number of threads.
abbrev pub fresh_pool : ℕ → ℕ → Pool
fresh_pool size threads = record { idle = connections size; callers = replicate threads away }

-- What one thread does while the others stand still.
pub data Step (p : Pool) : Pool → Type 0 where
  calls :
      (i : ℕ)
      → get_elem? p.callers i ≡ some away
      → Step p (record p { callers = set_phase i waiting p.callers })
  acquires :
      (i c : ℕ) (rest : List ℕ)
      → get_elem? p.callers i ≡ some waiting
      → acquire p.idle ≡ some (c, rest)
      → Step p (record { idle = rest; callers = set_phase i (holding c) p.callers })
  releases :
      (i c : ℕ)
      → get_elem? p.callers i ≡ some (holding c)
      → Step p (record { idle = release c p.idle; callers = set_phase i away p.callers })

-- A number of steps.
pub data Run (p : Pool) : ℕ → Pool → Type 0 where
  here : Run p 0 p
  more : {n : ℕ} {q r : Pool} → Run p n q → Step q r → Run p (suc n) r
