-- ===== src/Users/Manager/Registration.antt =====
-- AddUser (IMServer/IMServer/UserManager.cpp): its refusals, and the accounts that it makes.
use aim_server.Common.{
  ℕ, zero, suc, ◌≡◌, refl, sym, ◌∙◌, ◌≢◌, ◌⊎◌, true, false, not, ◌&&◌, some, inl, inr, List, [],
  ◌∷◌, ◌++◌, arith, ◌==◌, Bytes, bytes_eq, bytes_eq_iff, is_empty, ℤ, succ_int32, Bool-cases,
  get_elem?, get_elem?-append_inv,
}
use aim_server.Env.{Env}
use aim_server.Password.{hash_password, verify_password}
use aim_server.Password.Verify.{verify_password-hash_password}
use aim_server.Users.User.{User}
use aim_server.Users.Directory.{store_user-cached_users}
use aim_server.Users.Manager.{Store, add_user, clash, registered, user_by_name}
use aim_server.Users.Statements

-- No two cached objects share a name, or a mail address that is given.
pub record IsDistinct (us : List User) : Type 0 where
  pub names :
      (p q : ℕ) (u w : User)
      → get_elem? us p ≡ some u
      → get_elem? us q ≡ some w
      → u.username ≡ w.username
      → p ≡ q
  pub mails :
      (p q : ℕ) (u w : User)
      → get_elem? us p ≡ some u
      → get_elem? us q ≡ some w
      → u.mail ≢ []
      → u.mail ≡ w.mail
      → p ≡ q

clash-free :
    (u : User) (us : List User) (p : ℕ) (w : User)
    → clash u us ≡ 0
    → get_elem? us p ≡ some w
    → (bytes_eq w.username u.username ≡ false)
      × ((not (is_empty u.mail) && bytes_eq w.mail u.mail) ≡ false)
unfolding clash
clash-free u [] p w h at = absurd (ground arith)
clash-free u (x ∷ us) zero w h at = ground arith
clash-free u (x ∷ us) (suc p) w h at = ground (arith, clash-free u us p w)

not_empty : (s : Bytes) → s ≢ [] → is_empty s ≡ false
not_empty [] h = absurd (h refl)
not_empty (c ∷ s) h = refl

-- AddUser's check reads the name and the mail address only.
clash-ext :
    (u : User) (id : ℤ) (hashed : Bytes) (us : List User)
    → clash (registered u id hashed) us ≡ clash u us
unfolding clash
clash-ext u id hashed [] = refl
clash-ext u id hashed (x ∷ us) = ground (arith, clash-ext u id hashed us)

-- Where two positions of a list with a new end lead.
new_or_old :
    (u : User) (us : List User) (p q : ℕ) (v w : User)
    → get_elem? (us ++ u ∷ []) p ≡ some v
    → get_elem? (us ++ u ∷ []) q ≡ some w
    → (p ≡ q)
      ⊎ (((get_elem? us p ≡ some v) × (get_elem? us q ≡ some w))
          ⊎ (((get_elem? us p ≡ some v) × (w ≡ u)) ⊎ ((get_elem? us q ≡ some w) × (v ≡ u))))
new_or_old u us p q v w at_p at_q = elim (get_elem?-append_inv us u p v at_p) [
  | inl old ↦ elim (get_elem?-append_inv us u q w at_q) [
    | inl old' ↦ inr (inl (old, old'))
    | inr (_, new) ↦ inr (inr (inl (old, new)))
  ]
  | inr (here, new) ↦ elim (get_elem?-append_inv us u q w at_q) [
    | inl old ↦ inr (inr (inr (old, new)))
    | inr (there, _) ↦ inl (here ∙ sym there)
  ]
]

-- An object whose name and mail address are free can be appended.
append-IsDistinct :
    (u : User) (us : List User) → clash u us ≡ 0 → IsDistinct us → IsDistinct (us ++ u ∷ [])
append-IsDistinct u us free d = record {
  names = λ p q v w at_p at_q same. elim (new_or_old u us p q v w at_p at_q) [
    | inl eq ↦ eq
    | inr (inl (old, old')) ↦ d.names p q v w old old' same
    | inr (inr (inl (old, new))) ↦
        absurd (ground (arith, bytes_eq_iff v.username u.username, clash-free u us p v free old))
    | inr (inr (inr (old, new))) ↦
        absurd (ground (arith, bytes_eq_iff w.username u.username, clash-free u us q w free old))
  ];
  mails = λ p q v w at_p at_q given same. elim (new_or_old u us p q v w at_p at_q) [
    | inl eq ↦ eq
    | inr (inl (old, old')) ↦ d.mails p q v w old old' given same
    | inr (inr (inl (old, new))) ↦ absurd (
        ground
          (arith, not_empty v.mail given, bytes_eq_iff v.mail u.mail, clash-free u us p v free old))
    | inr (inr (inr (old, new))) ↦ absurd (
        ground
          (arith, not_empty v.mail given, bytes_eq_iff w.mail u.mail, clash-free u us q w free old))
  ];
}

user_by_name-append :
    (u w : User) (us : List User)
    → clash u us ≡ 0
    → w.username ≡ u.username
    → user_by_name u.username (us ++ w ∷ []) ≡ some w
unfolding clash user_by_name
user_by_name-append u w [] free same = ground (arith, bytes_eq_iff w.username u.username)
user_by_name-append u w (x ∷ us) free same = ground (arith, user_by_name-append u w us)

module _ (e : Env) where
  -- The three ends of AddUser: a clash, a database error, and the new object.
  add_user-cases :
      (u : User) (s : Store e)
      → (((add_user e u s).0 ≢ 0) × ((add_user e u s).1.manager ≡ s.manager))
        ⊎ ((clash u s.manager.cached_users ≡ 0)
            × ((add_user e u s).0 ≡ 0)
            × (draws : ℕ → ℕ) × (id : ℤ) × ((add_user e u s).1.manager.cached_users
                ≡ s.manager.cached_users ++ registered u id (hash_password draws u.password) ∷ []))
  unfolding add_user
  add_user-cases u s =
      let newid = succ_int32 s.manager.base_user_id in
      let hashed = hash_password (e.draws s.ext).0 u.password in
      elim (Bool-cases (clash u s.manager.cached_users == 0)) [
        | inr clashing ↦ inl (rw (clashing, add_user) (ground arith, refl))
        | inl free ↦
            elim (Bool-cases
              (e.execute (Statements.Insert.user newid u hashed) (e.draws s.ext).1).0) [
                | inr failed ↦ inl (rw (free, add_user, failed) (ground arith, refl))
                | inl ok ↦ inr (
                  ground arith,
                  rw (free, add_user, ok) refl,
                  (e.draws s.ext).0,
                  newid,
                  rw (free, add_user, ok) (store_user-cached_users _ _),
                )
              ]
      ]

  -- A refused or failed AddUser leaves the cache and the id bases as they were.
  pub add_user-refused :
      (u : User) (s : Store e) → (add_user e u s).0 ≢ 0 → (add_user e u s).1.manager ≡ s.manager
  add_user-refused u s h = elim (add_user-cases u s) [
    | inl (_, same) ↦ same
    | inr (_, ok, _, _, _) ↦ absurd (h ok)
  ]

  -- AddUser keeps the names and the mail addresses of the cached objects distinct, whatever it
  -- returns.
  pub add_user-IsDistinct :
      (u : User) (s : Store e)
      → IsDistinct s.manager.cached_users
      → IsDistinct (add_user e u s).1.manager.cached_users
  add_user-IsDistinct u s d = elim (add_user-cases u s) [
    | inl (_, same) ↦ rw same d
    | inr (free, _, draws, id, stored) ↦ rw stored (
        append-IsDistinct (registered u id (hash_password draws u.password)) s.manager.cached_users
          (rw (clash-ext u id (hash_password draws u.password) s.manager.cached_users) free) d)
  ]

  -- An account that AddUser makes is found under its name, and the password that it was made with
  -- passes the check of the login.
  pub add_user-login :
      (u : User) (s : Store e)
      → (add_user e u s).0 ≡ 0
      → (w : User) × (user_by_name u.username (add_user e u s).1.manager.cached_users ≡ some w)
        × (verify_password u.password w.password ≡ true)
  add_user-login u s h = elim (add_user-cases u s) [
    | inl (refused, _) ↦ absurd (refused h)
    | inr (free, _, draws, id, stored) ↦
        let w = registered u id (hash_password draws u.password) in
        (
          w,
          rw stored (user_by_name-append u w s.manager.cached_users free refl),
          verify_password-hash_password draws u.password,
        )
  ]
