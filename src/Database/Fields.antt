-- ===== src/Database/Fields.antt =====
-- std::map<string, A>, as IMServer/IMServer/MySqlManager.h uses it for fields and tables: the
-- entries in the order of their keys.
use aim_server.Common.{
  ◌≡◌, refl, Option, none, some, List, [], ◌∷◌, arith, if◌then◌else◌, Bytes, bytes_eq, bytes_eq_iff,
  bytes_lt,
}

module _ {A : Type 0} where
  unfoldable pub find : Bytes → List (Bytes × A) → Option A
  find k [] = none
  find k ((j, a) ∷ m) = if bytes_eq j k then some a else find k m

  -- `m[k] = a`.
  unfoldable pub assign : Bytes → A → List (Bytes × A) → List (Bytes × A)
  assign k a [] = (k, a) ∷ []
  assign k a ((j, b) ∷ m) =
      let rest = assign k a m in
      if bytes_eq j k
      then (j, a) ∷ m
      else if bytes_lt k j
      then (k, a) ∷ (j, b) ∷ m
      else (j, b) ∷ rest

  -- `m.insert({k, a})`: nothing if the key is there.
  unfoldable pub insert : Bytes → A → List (Bytes × A) → List (Bytes × A)
  unfolding find assign
  insert k a m = elim (find k m) [ none ↦ assign k a m | some _ ↦ m ]

  unfoldable pub erase : Bytes → List (Bytes × A) → List (Bytes × A)
  erase k [] = []
  erase k ((j, a) ∷ m) = let rest = erase k m in if bytes_eq j k then rest else (j, a) ∷ rest

  pub find-assign :
      (j k : Bytes) (a : A) (m : List (Bytes × A))
      → find j (assign k a m) ≡ (if bytes_eq k j then some a else find j m)
  unfolding find assign
  find-assign j k a [] = refl
  find-assign j k a ((i, b) ∷ m) =
      ground (arith, bytes_eq_iff i k, bytes_eq_iff i j, bytes_eq_iff k j, find-assign j k a m)

  pub find-insert :
      (j k : Bytes) (a : A) (m : List (Bytes × A))
      → find j (insert k a m)
        ≡ (if bytes_eq k j then elim (find k m) [ none ↦ some a | some b ↦ some b ] else find j m)
  unfolding insert
  find-insert j k a m = ground (arith, bytes_eq_iff k j, find-assign j k a m)

  pub find-erase :
      (j k : Bytes) (m : List (Bytes × A))
      → find j (erase k m) ≡ (if bytes_eq k j then none else find j m)
  unfolding find erase
  find-erase j k [] = ground arith
  find-erase j k ((i, a) ∷ m) =
      ground (arith, bytes_eq_iff i k, bytes_eq_iff i j, bytes_eq_iff k j, find-erase j k m)
