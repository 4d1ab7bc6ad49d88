-- ===== src/IdSet.antt =====
-- std::set<int32_t>, as User::friends and User::admins of IMServer/IMServer/UserManager.h use it:
-- a list that grows from its head on, so that a loop over it meets the ids in that order.
use aim_server.Common.{
  ◌≡◌, refl, Bool, true, false, List, [], ◌∷◌, arith, if◌then◌else◌, ℤ, eqb, eqb_iff, ltb_ℤ, ◌<ℤ◌,
}

-- `count(k) > 0`.
unfoldable pub member : ℤ → List ℤ → Bool
member k [] = false
member k (x ∷ s) = if eqb x k then true else member k s

pub insert : ℤ → List ℤ → List ℤ
insert k [] = k ∷ []
insert k (x ∷ s) =
    let rest = insert k s in if eqb x k then x ∷ s else if ltb_ℤ k x then k ∷ x ∷ s else x ∷ rest

pub erase : ℤ → List ℤ → List ℤ
erase k [] = []
erase k (x ∷ s) = let rest = erase k s in if eqb x k then rest else x ∷ rest

pub member-insert :
    (j k : ℤ) (s : List ℤ) → member j (insert k s) ≡ (if eqb k j then true else member j s)
unfolding member insert
member-insert j k [] = refl
member-insert j k (x ∷ s) =
    ground (arith, eqb_iff x k, eqb_iff x j, eqb_iff k j, member-insert j k s)

pub member-erase :
    (j k : ℤ) (s : List ℤ) → member j (erase k s) ≡ (if eqb k j then false else member j s)
unfolding member erase
member-erase j k [] = ground arith
member-erase j k (x ∷ s) = ground (arith, eqb_iff x k, eqb_iff x j, eqb_iff k j, member-erase j k s)

-- The ids grow along the list, from above a bound on.
abbrev pub Above : ℤ → List ℤ → Type 0
Above b [] = Unit {0}
Above b (x ∷ s) = (b <ℤ x) × Above x s

abbrev pub IsSorted : List ℤ → Type 0
IsSorted [] = Unit {0}
IsSorted (x ∷ s) = Above x s

not-eqb : (a b : ℤ) → eqb a b ≡ false → ltb_ℤ b a ≡ false → a <ℤ b
unfolding eqb
not-eqb a b h k = ground arith

insert-Above : (b k : ℤ) (s : List ℤ) → b <ℤ k → Above b s → Above b (insert k s)
unfolding insert
insert-Above b k [] h a = (h, tt)
insert-Above b k (x ∷ s) h a = ground (arith, eqb_iff x k, not-eqb x k, insert-Above x k s)

pub insert-IsSorted : (k : ℤ) (s : List ℤ) → IsSorted s → IsSorted (insert k s)
unfolding insert
insert-IsSorted k [] h = tt
insert-IsSorted k (x ∷ s) h = ground (arith, eqb_iff x k, not-eqb x k, insert-Above x k s)

Above-mono : (b c : ℤ) (s : List ℤ) → b <ℤ c → Above c s → Above b s
Above-mono b c [] h a = tt
Above-mono b c (x ∷ s) h a = (omega arith, a.1)

erase-Above : (b k : ℤ) (s : List ℤ) → Above b s → Above b (erase k s)
unfolding erase
erase-Above b k [] a = tt
erase-Above b k (x ∷ s) a = ground (arith, erase-Above x k s a.1, Above-mono b x (erase k s) a.0)

pub erase-IsSorted : (k : ℤ) (s : List ℤ) → IsSorted s → IsSorted (erase k s)
unfolding erase
erase-IsSorted k [] h = tt
erase-IsSorted k (x ∷ s) h = ground (arith, erase-Above x k s h, Above-IsSorted x (erase k s))
  where
    Above-IsSorted : (b : ℤ) (t : List ℤ) → Above b t → IsSorted t
    Above-IsSorted b [] a = tt
    Above-IsSorted b (y ∷ t) a = a.1
