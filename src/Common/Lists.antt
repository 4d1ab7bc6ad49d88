-- ===== src/Common/Lists.antt =====
-- Lists measured and indexed by native numbers, and predicates on all items of a list.
use Prim.Native.Nat.{ℕ, zero, suc, ◌+◌}
use mathlib.Core.Path.{◌≡◌, refl}
use mathlib.Core.Logic.{◌≢◌, ◌⊎◌, inl, inr}
use mathlib.Core.List.{List, [], ◌∷◌, ◌++◌, map}
use mathlib.Core.Option.{Option, none, some}
use native.Mathlib.Omega.{arith}

module _ {ℓ} {A : Type ℓ} where
  abbrev pub length : List A → ℕ
  length [] = 0
  length (x ∷ xs) = suc (length xs)

  abbrev pub get_elem? : List A → ℕ → Option A
  get_elem? [] i = none
  get_elem? (x ∷ xs) zero = some x
  get_elem? (x ∷ xs) (suc i) = get_elem? xs i

  -- The item at a position is changed by a function; a position out of range changes nothing.
  abbrev pub modify : (A → A) → List A → ℕ → List A
  modify f [] i = []
  modify f (x ∷ xs) zero = f x ∷ xs
  modify f (x ∷ xs) (suc i) = x ∷ modify f xs i

  abbrev pub take : ℕ → List A → List A
  take zero xs = []
  take (suc n) [] = []
  take (suc n) (x ∷ xs) = x ∷ take n xs

  abbrev pub drop : ℕ → List A → List A
  drop zero xs = xs
  drop (suc n) [] = []
  drop (suc n) (x ∷ xs) = drop n xs

  abbrev pub replicate : ℕ → A → List A
  replicate zero a = []
  replicate (suc n) a = a ∷ replicate n a

  abbrev pub get_or : List A → ℕ → A → A
  get_or [] i d = d
  get_or (x ∷ xs) zero d = x
  get_or (x ∷ xs) (suc i) d = get_or xs i d

  -- Every item of the list satisfies the predicate.
  abbrev pub All {κ} : (A → Type κ) → List A → Type κ
  All P [] = Unit
  All P (x ∷ xs) = P x × All P xs

module _ {ℓ} {A : Type ℓ} where
  pub length-append : (xs ys : List A) → length (xs ++ ys) ≡ length xs + length ys
  length-append [] ys = omega arith
  length-append (x ∷ xs) ys = omega (arith, length-append xs ys)

  pub All-append {κ} : (P : A → Type κ) (xs ys : List A) → All P xs → All P ys → All P (xs ++ ys)
  All-append P [] ys hx hy = hy
  All-append P (x ∷ xs) ys hx hy = (hx.0, All-append P xs ys hx.1 hy)

  pub get_elem?-modify_self :
      (f : A → A) (xs : List A) (i : ℕ) {a : A}
      → get_elem? xs i ≡ some a
      → get_elem? (modify f xs i) i ≡ some (f a)
  get_elem?-modify_self f [] i h = ground arith
  get_elem?-modify_self f (x ∷ xs) zero h = ground arith
  get_elem?-modify_self f (x ∷ xs) (suc i) h = get_elem?-modify_self f xs i h

  pub get_elem?-modify_ne :
      (f : A → A) (xs : List A) (i j : ℕ) → i ≢ j → get_elem? (modify f xs i) j ≡ get_elem? xs j
  get_elem?-modify_ne f [] i j h = refl
  get_elem?-modify_ne f (x ∷ xs) zero zero h = absurd (h refl)
  get_elem?-modify_ne f (x ∷ xs) zero (suc j) h = refl
  get_elem?-modify_ne f (x ∷ xs) (suc i) zero h = refl
  get_elem?-modify_ne f (x ∷ xs) (suc i) (suc j) h =
      get_elem?-modify_ne f xs i j (λ e. h (omega arith))

  pub get_elem?-append_left :
      (xs ys : List A) (i : ℕ) {a : A} → get_elem? xs i ≡ some a → get_elem? (xs ++ ys) i ≡ some a
  get_elem?-append_left [] ys i h = ground arith
  get_elem?-append_left (x ∷ xs) ys zero h = h
  get_elem?-append_left (x ∷ xs) ys (suc i) h = get_elem?-append_left xs ys i h

  pub get_elem?-append_end : (xs : List A) (a : A) → get_elem? (xs ++ a ∷ []) (length xs) ≡ some a
  get_elem?-append_end [] a = refl
  get_elem?-append_end (x ∷ xs) a = get_elem?-append_end xs a

  -- What stands in a list after a change of one item was there before, or is that item changed.
  pub get_elem?-modify_inv :
      (f : A → A) (xs : List A) (i j : ℕ) (b : A)
      → get_elem? (modify f xs i) j ≡ some b
      → (a : A) × (get_elem? xs j ≡ some a) × ((b ≡ f a) ⊎ (b ≡ a))
  get_elem?-modify_inv f [] i j b h = absurd (ground arith)
  get_elem?-modify_inv f (x ∷ xs) zero zero b h = (x, refl, ground arith)
  get_elem?-modify_inv f (x ∷ xs) zero (suc j) b h = (b, h, inr refl)
  get_elem?-modify_inv f (x ∷ xs) (suc i) zero b h = (b, h, inr refl)
  get_elem?-modify_inv f (x ∷ xs) (suc i) (suc j) b h = get_elem?-modify_inv f xs i j b h

  pub get_elem?-append_inv :
      (xs : List A) (a : A) (j : ℕ) (b : A)
      → get_elem? (xs ++ a ∷ []) j ≡ some b
      → (get_elem? xs j ≡ some b) ⊎ ((j ≡ length xs) × (b ≡ a))
  get_elem?-append_inv [] a zero b h = ground arith
  get_elem?-append_inv [] a (suc j) b h = absurd (ground arith)
  get_elem?-append_inv (x ∷ xs) a zero b h = inl h
  get_elem?-append_inv (x ∷ xs) a (suc j) b h = ground (arith, get_elem?-append_inv xs a j b h)

pub get_elem?-map {ℓ κ} :
    {A : Type ℓ} {B : Type κ} (f : A → B) (xs : List A) (i : ℕ) {a : A}
    → get_elem? xs i ≡ some a
    → get_elem? (map f xs) i ≡ some (f a)
get_elem?-map f [] i h = absurd (ground arith)
get_elem?-map f (x ∷ xs) zero h = ground arith
get_elem?-map f (x ∷ xs) (suc i) h = get_elem?-map f xs i h
