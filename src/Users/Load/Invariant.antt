-- ===== src/Users/Load/Invariant.antt =====
-- The start of the server (UserManager::init, IMServer/IMServer/UserManager.cpp), and the invariant
-- of the cache.
use aim_server.Common.{
  ◌≡◌, refl, ◌∙◌, sym, ap, true, false, ◌&&◌, none, some, inl, inr, List, [], ◌∷◌, arith,
  if◌then◌else◌, ℤ, eqb, ltb_ℤ, leb_ℤ, All, Bool-cases,
}
use aim_server.Env.{Env, Row}
use aim_server.Query.{read_rows, int_field}
use aim_server.Users.User.{User, group_boundary}
use aim_server.Users.Directory.{
  UserManager, empty_manager, position, store_user, position-store_user, empty_manager-position,
}
use aim_server.Users.Directory.Invariant.{
  Inv, with_bases, empty_manager-Inv, store_user-Inv, raise_bases-Inv, store_user-with_bases,
  SameIds, SameIds-Inv, store_user-bases,
}
use aim_server.Users.Statements
use aim_server.Users.Load.{
  user_of_row, raise_bases, load_user, load_users, load_relations, load_all_relations,
  load_user_from_db, init,
}

-- The ids of the rows differ, as the primary key of t_user has it.
abbrev pub DistinctIds : List Row → Type 0
DistinctIds [] = Unit {0}
DistinctIds (r ∷ rs) = All (λ x. eqb (int_field r 0) (int_field x 0) ≡ false) rs × DistinctIds rs

abbrev Unused : UserManager → List Row → Type 0
Unused m rs = All (λ r. position (int_field r 0) m.map_users ≡ none) rs

abbrev raised_user : ℤ → UserManager → ℤ
raised_user id m = if ltb_ℤ id group_boundary && ltb_ℤ m.base_user_id id then id else m.base_user_id

abbrev raised_group : ℤ → UserManager → ℤ
raised_group id m =
    if leb_ℤ group_boundary id && ltb_ℤ m.base_group_id id then id else m.base_group_id

raise_bases-with :
    (id : ℤ) (m : UserManager)
    → raise_bases id m ≡ with_bases (raised_user id m) (raised_group id m) m
unfolding raise_bases
raise_bases-with id m = elim (Bool-cases (ltb_ℤ id group_boundary && ltb_ℤ m.base_user_id id)) [
  | inl user ↦ elim (Bool-cases (leb_ℤ group_boundary id && ltb_ℤ m.base_group_id id)) [
    | inl group ↦ rw (user, raise_bases, group) refl
    | inr kept ↦ rw (user, raise_bases, kept) refl
  ]
  | inr kept ↦ elim (Bool-cases (leb_ℤ group_boundary id && ltb_ℤ m.base_group_id id)) [
    | inl group ↦ rw (kept, raise_bases, group) refl
    | inr kept' ↦ rw (kept, raise_bases, kept') refl
  ]
]

load_user-with :
    (m : UserManager) (u : User)
    → load_user m u ≡ store_user u (with_bases (raised_user u.userid m) (raised_group u.userid m) m)
unfolding load_user
load_user-with m u =
    let (same_user, same_group) = store_user-bases u m in
    rw (raise_bases-with u.userid (store_user u m), same_user, same_group)
      (sym (store_user-with_bases (raised_user u.userid m) (raised_group u.userid m) u m))

load_user-Inv :
    (m : UserManager)
    → Inv m
    → (u : User) → position u.userid m.map_users ≡ none
    → Inv (load_user m u)
load_user-Inv m v u fresh =
    let a = raised_user u.userid m in
    let b = raised_group u.userid m in
    rw (load_user-with m u) (
      store_user-Inv (with_bases a b m) (raise_bases-Inv m v a b (ground arith) (ground arith)) u
        fresh (λ below. ground arith) (λ beyond. ground arith))

load_user-Unused :
    (m : UserManager) (u : User) (rs : List Row)
    → All (λ x. eqb u.userid (int_field x 0) ≡ false) rs
    → Unused m rs
    → Unused (load_user m u) rs
load_user-Unused m u [] other unused = tt
load_user-Unused m u (r ∷ rs) other unused = (
  rw (load_user-with m u) (position-store_user (int_field r 0) u _ other.0 ∙ unused.0),
  load_user-Unused m u rs other.1 unused.1,
)

-- Loading rows with distinct ids that the cache does not know keeps its invariant.
load_users-Inv :
    (rs : List Row) (m : UserManager) → Inv m → DistinctIds rs → Unused m rs → Inv (load_users m rs)
unfolding load_users user_of_row
load_users-Inv [] m v distinct unused = v
load_users-Inv (r ∷ rs) m v distinct unused =
    let u = user_of_row r in
    load_users-Inv rs (load_user m u) (load_user-Inv m v u unused.0) distinct.1
      (load_user-Unused m u rs distinct.0 unused.1)

empty_manager-Unused : (rs : List Row) → Unused empty_manager rs
empty_manager-Unused [] = tt
empty_manager-Unused (r ∷ rs) = (empty_manager-position (int_field r 0), empty_manager-Unused rs)

module _ (e : Env) where
  load_relations-userid : (u : User) (ext : e.State) → u.userid ≡ (load_relations e u ext).0.userid
  unfolding load_relations
  load_relations-userid u ext = elim (Bool-cases (leb_ℤ group_boundary u.userid)) [
    | inl group ↦ rw (group, load_relations) refl
    | inr user ↦ rw (user, load_relations) refl
  ]

  load_all_relations-SameIds :
      (us : List User) (ext : e.State) → SameIds us (load_all_relations e us ext).0
  unfolding load_all_relations
  load_all_relations-SameIds [] ext = tt
  load_all_relations-SameIds (u ∷ us) ext =
      (load_relations-userid u ext, load_all_relations-SameIds us (load_relations e u ext).1)

  load_user_from_db-loaded :
      (ext ext' : e.State) (rows : List Row)
      → e.query Statements.Select.users ext ≡ (some rows, ext')
      → load_user_from_db e (record { manager = empty_manager; ext = ext })
        ≡ (true, record { manager = load_users empty_manager (read_rows rows); ext = ext' })
  unfolding load_user_from_db
  load_user_from_db-loaded ext ext' rows answer =
      rw (load_user_from_db, ap (λ r. r.0) answer, ap (λ r. r.1) answer) refl

  -- A start of the server establishes the invariant of the cache, whatever the tables hold, as long
  -- as the rows of t_user that are read have distinct ids.
  pub init-Inv :
      (ext ext' : e.State) (rows : List Row)
      → e.query Statements.Select.users ext ≡ (some rows, ext')
      → DistinctIds (read_rows rows)
      → ((init e (record { manager = empty_manager; ext = ext })).0 ≡ true)
        × Inv (init e (record { manager = empty_manager; ext = ext })).1.manager
  unfolding init
  init-Inv ext ext' rows answer distinct =
      let loaded = load_users empty_manager (read_rows rows) in
      let v =
        load_users-Inv (read_rows rows) empty_manager empty_manager-Inv distinct
          (empty_manager-Unused (read_rows rows)) in
      let read = load_user_from_db-loaded ext ext' rows answer in
      rw (init, read)
        (
          refl,
          SameIds-Inv loaded v (load_all_relations e loaded.cached_users ext').0
              (load_all_relations-SameIds loaded.cached_users ext'),
        )
