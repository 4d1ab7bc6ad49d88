-- ===== src/Users/Directory.antt =====
-- The two indexes of class UserManager (IMServer/IMServer/UserManager.h): the list m_cachedUsers
-- and the map m_mapUsers, which share their User objects. An object is made, put into the list and
-- entered in the map under one lock, and none is ever removed, so the list is the store of the
-- objects and a pointer is a position in it.
pub mod Invariant
use mathlib.Core.Option
use aim_server.Common.{
  ℕ, suc, ◌≡◌, refl, ◌≢◌, Bool, true, false, Option, none, some, inl, inr, List, [], ◌∷◌, ◌++◌,
  arith, if◌then◌else◌, ℤ, pos, eqb, eqb_iff, length, get_elem?, modify, get_elem?-modify_self,
  get_elem?-modify_ne, get_elem?-append_left, get_elem?-append_end, Option-cases, eq-cases,
  Bool-cases, ◌∙◌,
}
use aim_server.Users.User.{User, group_boundary}

pub record UserManager : Type 0 where
  pub cached_users : List User
  pub map_users : List (ℤ × ℕ)
  pub base_user_id : ℤ
  pub base_group_id : ℤ

-- The members' initial values.
unfoldable pub empty_manager : UserManager
empty_manager = record {
  cached_users = [];
  map_users = [];
  base_user_id = pos 0;
  base_group_id = group_boundary;
}

-- `m_mapUsers.find(id)`.
unfoldable pub position : ℤ → List (ℤ × ℕ) → Option ℕ
position id [] = none
position id ((k, p) ∷ m) = if eqb k id then some p else position id m

-- `m_mapUsers[id] = sp`.
unfoldable pub assign : ℤ → ℕ → List (ℤ × ℕ) → List (ℤ × ℕ)
assign id q [] = (id, q) ∷ []
assign id q ((k, p) ∷ m) =
    let rest = assign id q m in if eqb k id then (k, q) ∷ m else (k, p) ∷ rest

-- The user object that the map holds for an id.
unfoldable pub find_user : ℤ → UserManager → Option User
find_user id m = elim (position id m.map_users) [
  | none ↦ none
  | some p ↦ get_elem? m.cached_users p
]

-- A change of that object through its pointer; nothing for an unknown id.
unfoldable pub update_user : ℤ → (User → User) → UserManager → UserManager
update_user id f m = elim (position id m.map_users) [
  | none ↦ m
  | some p ↦ record m { cached_users = modify f m.cached_users p }
]

-- `make_shared`, `m_cachedUsers.push_back` and `m_mapUsers[userid] = sp`.
unfoldable pub store_user : User → UserManager → UserManager
store_user u m = record m {
  cached_users = m.cached_users ++ u ∷ [];
  map_users = assign u.userid (length m.cached_users) m.map_users;
}

pub store_user-cached_users :
    (u : User) (m : UserManager) → (store_user u m).cached_users ≡ m.cached_users ++ u ∷ []
unfolding store_user
store_user-cached_users u m = refl

pub position-assign :
    (j id : ℤ) (q : ℕ) (m : List (ℤ × ℕ))
    → position j (assign id q m) ≡ (if eqb id j then some q else position j m)
unfolding position assign
position-assign j id q [] = refl
position-assign j id q ((k, p) ∷ m) =
    ground (arith, eqb_iff k id, eqb_iff k j, eqb_iff id j, position-assign j id q m)

-- Where the map of the cache leads once a new object is stored, for any id but its own.
pub position-store_user :
    (j : ℤ) (u : User) (m : UserManager)
    → eqb u.userid j ≡ false
    → position j (store_user u m).map_users ≡ position j m.map_users
unfolding store_user
position-store_user j u m other =
    ground (arith, position-assign j u.userid (length m.cached_users) m.map_users)

pub empty_manager-position : (id : ℤ) → position id empty_manager.map_users ≡ none
unfolding empty_manager position
empty_manager-position id = refl

-- Every pointer of the map leads to an object that carries the id it is filed under.
pub record IsCoherent (m : UserManager) : Type 0 where
  pub target :
      (id : ℤ) (p : ℕ)
      → position id m.map_users ≡ some p
      → (u : User) × (get_elem? m.cached_users p ≡ some u) × (u.userid ≡ id)

pub empty_manager-IsCoherent : IsCoherent empty_manager
empty_manager-IsCoherent = record {
  target = λ id p h. absurd (none_not_some (empty_manager-position id) h);
}
  where
    none_not_some : {o : Option ℕ} {p : ℕ} → o ≡ none → o ≡ some p → ⊥
    none_not_some e h = ground arith

-- A change that leaves the id of an object alone.
abbrev pub KeepsId : (User → User) → Type 0
KeepsId f = (u : User) → (f u).userid ≡ u.userid

module _ (m : UserManager) (c : IsCoherent m) where
  pub find_user_id : (id : ℤ) (u : User) → find_user id m ≡ some u → u.userid ≡ id
  unfolding find_user
  find_user_id id u h = elim (Option-cases (position id m.map_users)) [
    | inl e ↦ ground arith
    | inr (p, e) ↦ let (v, at, eq) = c.target id p e in ground arith
  ]

  -- A change through one id is seen under that id, and under no other.
  pub find_user-update_user :
      (j i : ℤ) (f : User → User)
      → find_user j (update_user i f m)
        ≡ (if eqb i j then Option.map f (find_user j m) else find_user j m)
  unfolding find_user update_user
  find_user-update_user j i f = elim (Option-cases (position i m.map_users)) [
    | inl absent ↦ ground (arith, eqb_iff i j)
    | inr (p, at_i) ↦ elim (Option-cases (position j m.map_users)) [
      | inl absent ↦ ground (arith, eqb_iff i j)
      | inr (q, at_j) ↦ elim (eq-cases p q) [
        | inl same ↦
            let (u, held, id) = c.target i p at_i in
            let (v, held', id') = c.target j q at_j in
            ground (arith, eqb_iff i j, get_elem?-modify_self f m.cached_users p held)
        | inr other ↦ ground (arith, eqb_iff i j, get_elem?-modify_ne f m.cached_users p q other)
      ]
    ]
  ]

  pub update_user-IsCoherent :
      (i : ℤ) (f : User → User) → KeepsId f → IsCoherent (update_user i f m)
  unfolding update_user
  update_user-IsCoherent i f keeps = elim (Option-cases (position i m.map_users)) [
    | inl absent ↦ rw (absent, update_user) c
    | inr (p, at_i) ↦
        rw (at_i, update_user)
          (record {
            target = λ id q at_id.
                let (u, held, eq) = c.target id q at_id in
                elim (eq-cases p q) [
                  | inl same ↦ (
                    f u,
                    rw (← same) (get_elem?-modify_self f m.cached_users p (rw same held)),
                    keeps u ∙ eq,
                  )
                  | inr other ↦ (u, get_elem?-modify_ne f m.cached_users p q other ∙ held, eq)
                ];
          })
  ]

  pub find_user-store_user :
      (j : ℤ) (u : User)
      → find_user j (store_user u m) ≡ (if eqb u.userid j then some u else find_user j m)
  unfolding find_user store_user
  find_user-store_user j u = elim (Option-cases (position j m.map_users)) [
    | inl absent ↦ ground (
      arith,
      position-assign j u.userid (length m.cached_users) m.map_users,
      get_elem?-append_end m.cached_users u,
    )
    | inr (p, at_j) ↦
        let (v, held, id) = c.target j p at_j in
        ground (
          arith,
          position-assign j u.userid (length m.cached_users) m.map_users,
          get_elem?-append_end m.cached_users u,
          get_elem?-append_left m.cached_users (u ∷ []) p held,
        )
  ]

  pub store_user-IsCoherent : (u : User) → IsCoherent (store_user u m)
  unfolding store_user
  store_user-IsCoherent u = record {
    target = λ id q at_id. elim (Bool-cases (eqb u.userid id)) [
      | inl own ↦ (
        u,
        ground (
          arith,
          position-assign id u.userid (length m.cached_users) m.map_users,
          get_elem?-append_end m.cached_users u,
        ),
        (eqb_iff u.userid id).0 own,
      )
      | inr foreign ↦
          let before : position id m.map_users ≡ some q =
            ground (arith, position-assign id u.userid (length m.cached_users) m.map_users) in
          let (v, held, eq) = c.target id q before in
          (v, get_elem?-append_left m.cached_users (u ∷ []) q held, eq)
    ];
  }
