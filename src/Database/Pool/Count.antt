-- ===== src/Database/Pool/Count.antt =====
-- How often a connection stands among the idle ones and among those that threads hold.
use aim_server.Common.{
  ℕ, zero, suc, ◌+◌, ◌≤◌, ◌≡◌, refl, inl, inr, some, List, [], ◌∷◌, arith, ◌==◌, ltb, Bool-cases,
  if◌then◌else◌, get_elem?, replicate,
}
use aim_server.Database.Pool.{Phase, away, waiting, holding, connections, set_phase}

abbrev pub count : ℕ → List ℕ → ℕ
count c [] = 0
count c (x ∷ xs) = (if x == c then 1 else 0) + count c xs

-- 1 for a thread that holds the connection.
abbrev pub holds : ℕ → Phase → ℕ
holds c away = 0
holds c waiting = 0
holds c (holding x) = if x == c then 1 else 0

abbrev pub held : ℕ → List Phase → ℕ
held c [] = 0
held c (t ∷ ts) = holds c t + held c ts

-- Another phase of one thread changes the number of holders by that thread's part.
pub held-set_phase :
    (c i : ℕ) (new old : Phase) (ts : List Phase)
    → get_elem? ts i ≡ some old
    → held c (set_phase i new ts) + holds c old ≡ held c ts + holds c new
held-set_phase c i new old [] h = absurd (ground arith)
held-set_phase c zero new old (t ∷ ts) h = ground arith
held-set_phase c (suc i) new old (t ∷ ts) h = omega (arith, held-set_phase c i new old ts h)

pub holds-held : (c i : ℕ) (ts : List Phase) → get_elem? ts i ≡ some (holding c) → 1 ≤ held c ts
holds-held c i [] h = absurd (ground arith)
holds-held c zero (t ∷ ts) h = ground arith
holds-held c (suc i) (t ∷ ts) h = omega (arith, holds-held c i ts h)

-- Two threads that hold one connection are the same, if it is held once at most.
pub held_once :
    (c i j : ℕ) (ts : List Phase)
    → held c ts ≤ 1
    → get_elem? ts i ≡ some (holding c)
    → get_elem? ts j ≡ some (holding c)
    → i ≡ j
held_once c i j [] few hi hj = absurd (ground arith)
held_once c zero zero (t ∷ ts) few hi hj = refl
held_once c zero (suc j) (t ∷ ts) few hi hj = absurd (ground (arith, holds-held c j ts))
held_once c (suc i) zero (t ∷ ts) few hi hj = absurd (ground (arith, holds-held c i ts))
held_once c (suc i) (suc j) (t ∷ ts) few hi hj =
    omega (arith, held_once c i j ts (ground arith) hi hj)

-- Where a connection is held, some thread holds it.
pub holder :
    (c : ℕ) (ts : List Phase) → 1 ≤ held c ts → (i : ℕ) × (get_elem? ts i ≡ some (holding c))
holder c [] h = absurd (omega arith)
holder c (away ∷ ts) h = let (i, e) = holder c ts (omega arith) in (suc i, e)
holder c (waiting ∷ ts) h = let (i, e) = holder c ts (omega arith) in (suc i, e)
holder c (holding x ∷ ts) h = elim (Bool-cases (x == c)) [
  | inl same ↦ (0, ground arith)
  | inr other ↦ let (i, e) = holder c ts (ground arith) in (suc i, e)
]

pub held-replicate : (c n : ℕ) → held c (replicate n away) ≡ 0
held-replicate c zero = refl
held-replicate c (suc n) = omega (arith, held-replicate c n)

-- Init's connections are distinct, and they are those below its size.
pub count-connections : (c n : ℕ) → count c (connections n) ≡ (if ltb c n then 1 else 0)
unfolding connections
count-connections c zero = ground arith
count-connections c (suc n) = ground (arith, count-connections c n)
