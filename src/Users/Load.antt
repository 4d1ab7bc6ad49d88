-- ===== src/Users/Load.antt =====
-- How the cache is filled at the start: UserManager::init, LoadUserFromDB, LoadRelationshipFromDB
-- and LoadGroupAdminsFromDB (IMServer/IMServer/UserManager.cpp).
pub mod Invariant
use mathlib.Core.List.{foldl}
use aim_server.Common.{
  Bool, true, false, ◌&&◌, Option, none, some, List, [], ◌∷◌, if◌then◌else◌, ℤ, eqb, ltb_ℤ, leb_ℤ,
}
use aim_server.Env.{Env, Row}
use aim_server.IdSet.{insert}
use aim_server.Query.{read_rows, field, int_field}
use aim_server.Users.User.{User, new_user, group_boundary}
use aim_server.Users.Directory.{UserManager, store_user}
use aim_server.Users.Manager.{Store}
use aim_server.Users.Statements

-- A row of t_user.
pub user_of_row : Row → User
user_of_row row = record new_user {
  userid = int_field row 0;
  username = field row 1;
  nickname = field row 2;
  password = field row 3;
  facetype = int_field row 4;
  customface = field row 5;
  gender = int_field row 6;
  birthday = int_field row 7;
  signature = field row 8;
  address = field row 9;
  phonenumber = field row 10;
  mail = field row 11;
  ownerid = int_field row 12;
}

-- The two bases grow to the largest id on their side of the boundary.
pub raise_bases : ℤ → UserManager → UserManager
raise_bases id m =
    let m' =
      if ltb_ℤ id group_boundary && ltb_ℤ m.base_user_id id
      then record m { base_user_id = id }
      else m in
    if leb_ℤ group_boundary id && ltb_ℤ m'.base_group_id id
    then record m' { base_group_id = id }
    else m'

-- One pass of the loop of LoadUserFromDB.
pub load_user : UserManager → User → UserManager
load_user m u = raise_bases u.userid (store_user u m)

pub load_users : UserManager → List Row → UserManager
load_users m [] = m
load_users m (row ∷ rows) = load_users (load_user m (user_of_row row)) rows

-- The friend that a row of t_user_relationship gives to a user.
pub add_related : ℤ → List ℤ → Row → List ℤ
add_related id friends row =
    if eqb (int_field row 0) id
    then insert (int_field row 1) friends
    else if eqb (int_field row 1) id
    then insert (int_field row 0) friends
    else friends

module _ (e : Env) where
  pub load_user_from_db : Store e → Bool × Store e
  load_user_from_db s =
      let (rows, ext) = e.query Statements.Select.users s.ext in
      elim rows [
        | none ↦ (false, record s { ext = ext })
        | some rs ↦ (true, record { manager = load_users s.manager (read_rows rs); ext = ext })
      ]

  -- The friends afterwards; a failed query leaves them as they are.
  pub load_relationship_from_db : ℤ → List ℤ → e.State → List ℤ × e.State
  load_relationship_from_db id friends ext =
      let (rows, ext') = e.query (Statements.Select.relationships id) ext in
      elim rows [
        | none ↦ (friends, ext')
        | some rs ↦ (foldl (add_related id) friends (read_rows rs), ext')
      ]

  pub load_group_admins_from_db : ℤ → List ℤ → e.State → List ℤ × e.State
  load_group_admins_from_db groupid admins ext =
      let (rows, ext') = e.query (Statements.Select.group_admins groupid) ext in
      elim rows [
        | none ↦ (admins, ext')
        | some rs ↦ (foldl (λ ids row. insert (int_field row 0) ids) admins (read_rows rs), ext')
      ]

  -- One pass of the loop of init.
  pub load_relations : User → e.State → User × e.State
  load_relations u ext =
      let (friends, ext') = load_relationship_from_db u.userid u.friends ext in
      let (admins, ext'') = load_group_admins_from_db u.userid u.admins ext' in
      if leb_ℤ group_boundary u.userid
      then (record u { friends = friends; admins = admins }, ext'')
      else (record u { friends = friends }, ext')

  pub load_all_relations : List User → e.State → List User × e.State
  load_all_relations [] ext = ([], ext)
  load_all_relations (u ∷ us) ext =
      let (u', ext') = load_relations u ext in
      let (us', ext'') = load_all_relations us ext' in (u' ∷ us', ext'')

  pub init : Store e → Bool × Store e
  unfolding load_user_from_db load_all_relations load_relations load_relationship_from_db
      load_group_admins_from_db
  init s =
      let (ok, s') = load_user_from_db s in
      let (users, ext) = load_all_relations s'.manager.cached_users s'.ext in
      if ok
      then (true, record { manager = record s'.manager { cached_users = users }; ext = ext })
      else (false, s')
