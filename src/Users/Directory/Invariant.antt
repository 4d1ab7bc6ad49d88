-- ===== src/Users/Directory/Invariant.antt =====
-- The invariant of the two indexes and of the id bases of class UserManager, under the two ways in
-- which its methods change them.
use aim_server.Common.{
  ℕ, zero, suc, ◌≡◌, refl, ◌∙◌, false, none, some, inl, inr, List, [], ◌∷◌, arith, ℤ, ◌≤ℤ◌, ◌<ℤ◌,
  eqb, eqb_iff, length, get_elem?, modify, get_elem?-modify_inv, get_elem?-append_inv, Option-cases,
  Bool-cases, sym,
}
use aim_server.Users.User.{User, group_boundary}
use aim_server.Users.Directory.{
  UserManager, empty_manager, find_user, update_user, store_user, position, position-assign,
  IsCoherent, KeepsId, find_user-update_user, find_user-store_user, update_user-IsCoherent,
  store_user-IsCoherent,
}

-- Both indexes lead to the same objects, and the two bases bound the ids of their kind.
pub record Inv (m : UserManager) : Type 0 where
  pub coherent : IsCoherent m
  pub shared :
      (p : ℕ) (u : User)
      → get_elem? m.cached_users p ≡ some u
      → position u.userid m.map_users ≡ some p
  pub users_below :
      (id : ℤ) (u : User) → find_user id m ≡ some u → id <ℤ group_boundary → id ≤ℤ m.base_user_id
  pub groups_below :
      (id : ℤ) (u : User) → find_user id m ≡ some u → group_boundary ≤ℤ id → id ≤ℤ m.base_group_id

pub empty_manager-Inv : Inv empty_manager
unfolding empty_manager position find_user
empty_manager-Inv = record {
  coherent = record { target = λ id p h. absurd (ground arith) };
  shared = λ p u h. absurd (ground arith);
  users_below = λ id u h. absurd (ground arith);
  groups_below = λ id u h. absurd (ground arith);
}

abbrev pub with_bases : ℤ → ℤ → UserManager → UserManager
with_bases a b m = record m { base_user_id = a; base_group_id = b }

module _ (m : UserManager) (v : Inv m) where
  -- An id that is found after a change of one object was found before.
  found_before :
      (id j : ℤ) (f : User → User) (u : User)
      → find_user j (update_user id f m) ≡ some u
      → (w : User) × (find_user j m ≡ some w)
  found_before id j f u h = elim (Option-cases (find_user j m)) [
    | inl absent ↦ absurd (ground (arith, find_user-update_user m v.coherent j id f))
    | inr found ↦ found
  ]

  bases_kept :
      (id : ℤ) (f : User → User)
      → ((update_user id f m).base_user_id ≡ m.base_user_id)
        × ((update_user id f m).base_group_id ≡ m.base_group_id)
        × ((update_user id f m).map_users ≡ m.map_users)
  unfolding update_user
  bases_kept id f = elim (Option-cases (position id m.map_users)) [
    | inl absent ↦ ground arith
    | inr (p, at) ↦ ground arith
  ]

  shared_kept :
      (id : ℤ) (f : User → User)
      → KeepsId f
      → (p : ℕ) (u : User) → get_elem? (update_user id f m).cached_users p ≡ some u
      → position u.userid m.map_users ≡ some p
  unfolding update_user
  shared_kept id f keeps p u h = elim (Option-cases (position id m.map_users)) [
    | inl absent ↦ v.shared p u (rw (absent, update_user) at h)
    | inr (q, at_id) ↦
        let h' : get_elem? (modify f m.cached_users q) p ≡ some u = rw (at_id, update_user) at h in
        let (w, old, how) = get_elem?-modify_inv f m.cached_users q p u h' in
        elim how [
          | inl new ↦ rw (new, keeps w) (v.shared p w old)
          | inr same ↦ rw same (v.shared p w old)
        ]
  ]

  -- A change of one object that keeps its id keeps the invariant.
  pub update_user-Inv : (id : ℤ) (f : User → User) → KeepsId f → Inv (update_user id f m)
  update_user-Inv id f keeps =
      let (ub, gb, mp) = bases_kept id f in
      record {
        coherent = update_user-IsCoherent m v.coherent id f keeps;
        shared = λ p u h. rw mp (shared_kept id f keeps p u h);
        users_below = λ j u h below.
            let (w, old) = found_before id j f u h in rw ub (v.users_below j w old below);
        groups_below = λ j u h above.
            let (w, old) = found_before id j f u h in rw gb (v.groups_below j w old above);
      }

  shared_stored :
      (u : User)
      → position u.userid m.map_users ≡ none
      → (p : ℕ) (w : User) → get_elem? (store_user u m).cached_users p ≡ some w
      → position w.userid (store_user u m).map_users ≡ some p
  unfolding store_user
  shared_stored u fresh p w h = elim (get_elem?-append_inv m.cached_users u p w h) [
    | inl old ↦ ground (
      arith,
      v.shared p w old,
      eqb_iff u.userid w.userid,
      position-assign w.userid u.userid (length m.cached_users) m.map_users,
    )
    | inr (at, new) ↦
        rw (new, at)
          (ground (
            arith,
            eqb_iff u.userid u.userid,
            position-assign u.userid u.userid (length m.cached_users) m.map_users,
          ))
  ]

  found_other :
      (u : User) (j : ℤ) (w : User)
      → eqb u.userid j ≡ false
      → find_user j (store_user u m) ≡ some w
      → find_user j m ≡ some w
  found_other u j w foreign h = ground (arith, find_user-store_user m v.coherent j u)

  -- A new object under an unused id keeps the invariant, with bases that bound that id.
  pub store_user-Inv :
      (u : User)
      → position u.userid m.map_users ≡ none
      → (u.userid <ℤ group_boundary → u.userid ≤ℤ m.base_user_id)
      → (group_boundary ≤ℤ u.userid → u.userid ≤ℤ m.base_group_id)
      → Inv (store_user u m)
  unfolding store_user
  store_user-Inv u fresh below_user below_group = record {
    coherent = store_user-IsCoherent m v.coherent u;
    shared = shared_stored u fresh;
    users_below = λ j w h below. elim (Bool-cases (eqb u.userid j)) [
      | inl own ↦ let e = (eqb_iff u.userid j).0 own in rw (← e) (below_user (rw e below))
      | inr foreign ↦ v.users_below j w (found_other u j w foreign h) below
    ];
    groups_below = λ j w h above. elim (Bool-cases (eqb u.userid j)) [
      | inl own ↦ let e = (eqb_iff u.userid j).0 own in rw (← e) (below_group (rw e above))
      | inr foreign ↦ v.groups_below j w (found_other u j w foreign h) above
    ];
  }

  pub raise_bases-Inv :
      (a b : ℤ) → m.base_user_id ≤ℤ a → m.base_group_id ≤ℤ b → Inv (with_bases a b m)
  unfolding find_user
  raise_bases-Inv a b ha hb = record {
    coherent = record { target = v.coherent.target };
    shared = v.shared;
    users_below = λ id u h below. ground (arith, v.users_below id u h below);
    groups_below = λ id u h above. ground (arith, v.groups_below id u h above);
  }

-- An id above the base of its kind is unused.
pub fresh_user_id :
    (m : UserManager)
    → Inv m
    → (id : ℤ) → m.base_user_id <ℤ id
    → id <ℤ group_boundary
    → find_user id m ≡ none
fresh_user_id m v id above below = elim (Option-cases (find_user id m)) [
  | inl absent ↦ absent
  | inr (u, h) ↦ absurd (omega (arith, v.users_below id u h below))
]

pub fresh_group_id :
    (m : UserManager)
    → Inv m
    → (id : ℤ) → m.base_group_id <ℤ id
    → group_boundary ≤ℤ id
    → find_user id m ≡ none
fresh_group_id m v id above beyond = elim (Option-cases (find_user id m)) [
  | inl absent ↦ absent
  | inr (u, h) ↦ absurd (omega (arith, v.groups_below id u h beyond))
]

-- The map has no entry for an id that no object is found under.
pub position_unused :
    (m : UserManager) → Inv m → (id : ℤ) → find_user id m ≡ none → position id m.map_users ≡ none
unfolding find_user
position_unused m v id absent = elim (Option-cases (position id m.map_users)) [
  | inl e ↦ e
  | inr (p, at) ↦ let (u, held, same) = v.coherent.target id p at in absurd (ground arith)
]

-- The bases do not matter for storing an object.
pub store_user-with_bases :
    (a b : ℤ) (u : User) (m : UserManager)
    → store_user u (with_bases a b m) ≡ with_bases a b (store_user u m)
unfolding store_user
store_user-with_bases a b u m = refl

pub store_user-bases :
    (u : User) (m : UserManager)
    → ((store_user u m).base_user_id ≡ m.base_user_id)
      × ((store_user u m).base_group_id ≡ m.base_group_id)
unfolding store_user
store_user-bases u m = (refl, refl)

-- The ids in two lists are the same, position by position.
abbrev pub SameIds : List User → List User → Type 0
SameIds [] [] = Unit {0}
SameIds (u ∷ us) (v ∷ vs) = (u.userid ≡ v.userid) × SameIds us vs
SameIds _ _ = ⊥

same_at :
    (us vs : List User) (p : ℕ) (v : User)
    → SameIds us vs
    → get_elem? vs p ≡ some v
    → (u : User) × (get_elem? us p ≡ some u) × (u.userid ≡ v.userid)
same_at [] [] p v same at = absurd (ground arith)
same_at [] (w ∷ vs) p v same at = absurd same
same_at (u ∷ us) [] p v same at = absurd same
same_at (u ∷ us) (w ∷ vs) zero v same at = (u, refl, ground arith)
same_at (u ∷ us) (w ∷ vs) (suc p) v same at = same_at us vs p v same.1 at

SameIds-sym : (us vs : List User) → SameIds us vs → SameIds vs us
SameIds-sym [] [] same = tt
SameIds-sym [] (w ∷ vs) same = absurd same
SameIds-sym (u ∷ us) [] same = absurd same
SameIds-sym (u ∷ us) (w ∷ vs) same = (sym same.0, SameIds-sym us vs same.1)

-- The objects may be replaced by others with the same ids.
pub SameIds-Inv :
    (m : UserManager)
    → Inv m
    → (vs : List User) → SameIds m.cached_users vs
    → Inv (record m { cached_users = vs })
unfolding find_user
SameIds-Inv m v vs same = record {
  coherent = record {
    target = λ id p at.
        let (u, held, eq) = v.coherent.target id p at in
        let (w, held', eq') =
          same_at vs m.cached_users p u (SameIds-sym m.cached_users vs same) held in
        (w, held', eq' ∙ eq);
  };
  shared = λ p w at.
      let (u, held, eq) = same_at m.cached_users vs p w same at in rw (← eq) (v.shared p u held);
  users_below =
      λ id w found below. let (u, old) = found_under id w found in v.users_below id u old below;
  groups_below =
      λ id w found above. let (u, old) = found_under id w found in v.groups_below id u old above;
}
  where
    found_under :
        (id : ℤ) (w : User)
        → find_user id (record m { cached_users = vs }) ≡ some w
        → (u : User) × (find_user id m ≡ some u)
    found_under id w found = elim (Option-cases (position id m.map_users)) [
      | inl absent ↦ absurd (ground arith)
      | inr (p, at) ↦ let (u, held, eq) = v.coherent.target id p at in (u, ground arith)
    ]
