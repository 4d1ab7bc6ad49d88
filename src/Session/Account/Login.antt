-- ===== src/Session/Account/Login.antt =====
-- What OnLoginResponse and OnRegisterResponse (IMServer/IMServer/ClientSession.cpp) promise.
use aim_server.Common.{
  ℕ, ◌≡◌, refl, true, false, ◌||◌, Option, none, some, inl, inr, List, arith, if◌then◌else◌,
  is_empty, ℤ, pos, eqb, text, ltb, length, Bool-cases, Option-cases, ◌↔◌, ◌∙◌, ap,
}
use aim_server.Env.{Env}
use aim_server.Password.{verify_password}
use aim_server.Proto.{Protobuf, MessageContainer, RegisterReq, LoginReq}
use aim_server.Users.User.{User}
use aim_server.Users.Manager.{Store, user_by_name, add_user}
use aim_server.Users.Manager.Registration.{add_user-login}
use aim_server.Session.State.{ClientSession, World, done, crashed, put, reply, session_at}
use aim_server.Session.State.Laws.{session_at-update_session}
use aim_server.Session.Account.{
  login, on_login, finish_login, register, register_verified, verify_code, add_user_rsp, account_of,
  is_valid_username, no_user,
}

-- The account that a login names: of a request that parses and has both fields, the cached user of
-- its name.
abbrev pub named_account : Option LoginReq → List User → Option User
named_account none us = none
named_account (some req) us =
    if is_empty req.username || is_empty req.password then none else user_by_name req.username us

module _ (e : Env) where
  -- A login succeeds exactly if it names an account and its password passes the check against the
  -- stored one.
  pub login-ok :
      (req : LoginReq) (s : ClientSession) (w : World e)
      → ((login e (some req) s w).0.code ≡ pos 0) ↔ (
          (u : User) × (named_account (some req) w.store.manager.cached_users ≡ some u)
          × (verify_password req.password u.password ≡ true))
  unfolding login
  login-ok req s w = elim (Bool-cases (is_empty req.username || is_empty req.password)) [
    | inl missing ↦ (ground arith)
    | inr given ↦ elim (Option-cases (user_by_name req.username w.store.manager.cached_users)) [
      | inl unknown ↦ ground arith
      | inr (u, found) ↦ elim (Bool-cases (verify_password req.password u.password)) [
        | inl right ↦
            (λ _. (u, rw (given, found) refl, right), λ _. rw (given, login, found, right) refl)
        | inr wrong ↦ ground arith
      ]
    ]
  ]

  -- Once a login names an account, the session has a user; else the login leaves it as it is.
  login-session :
      (req : Option LoginReq) (s : ClientSession) (w : World e)
      → ((login e req s w).1.user ≡ none)
        ↔ ((s.user ≡ none) × (named_account req w.store.manager.cached_users ≡ none))
  unfolding login
  login-session none s w = ground arith
  login-session (some req) s w =
      elim (Bool-cases (is_empty req.username || is_empty req.password)) [
        | inl missing ↦ ground arith
        | inr given ↦ elim (Option-cases (user_by_name req.username w.store.manager.cached_users)) [
          | inl unknown ↦ ground arith
          | inr (u, found) ↦ elim (Bool-cases (verify_password req.password u.password)) [
            | inl right ↦ ground arith
            | inr wrong ↦ ground arith
          ]
        ]
      ]

  -- Handling a login kills the process exactly if the session has no user yet and the login names
  -- no account, the request does not parse, or a field is missing.
  pub on_login-crash :
      (pb : Protobuf) (s : ClientSession) (msg : MessageContainer) (w : World e)
      → (on_login e pb s msg w ≡ crashed) ↔ (
          (s.user ≡ none)
          × (named_account (pb.parse_login_req msg.payload) w.store.manager.cached_users ≡ none))
  unfolding on_login finish_login eqb
  on_login-crash pb s msg w =
      let req = pb.parse_login_req msg.payload in
      elim (Option-cases (login e req s w).1.user) [
        | inl nobody ↦ ground (arith, login-session req s w)
        | inr (u, somebody) ↦ elim (Bool-cases (eqb (login e req s w).0.code (pos 0))) [
          | inl good ↦ ground (arith, login-session req s w)
          | inr bad ↦ ground (arith, login-session req s w)
        ]
      ]

  login-wrong :
      (req : LoginReq) (s : ClientSession) (w : World e) (u : User)
      → named_account (some req) w.store.manager.cached_users ≡ some u
      → verify_password req.password u.password ≡ false
      → login e (some req) s w ≡ (
        no_user e (pos 104) (text "user is not exist or password is incorrect!"),
        record s { user = some u },
        put (record s { user = some u }) w,
      )
  unfolding login
  login-wrong req s w u named wrong =
      elim (Bool-cases (is_empty req.username || is_empty req.password)) [
        | inl missing ↦ absurd (ground arith)
        | inr given ↦
            let found : user_by_name req.username w.store.manager.cached_users ≡ some u =
              ground arith in
            rw (given, login, found, wrong) refl
      ]

  -- A login with the name of an account and a wrong password is answered with code 104 and changes
  -- no account, but the handler's session is that account's from then on.
  pub on_login-wrong_password :
      (pb : Protobuf) (s t : ClientSession) (msg : MessageContainer) (w : World e) (req : LoginReq)
      (u : User)
      → session_at s.sessionid w.sessions ≡ some t
      → pb.parse_login_req msg.payload ≡ some req
      → named_account (some req) w.store.manager.cached_users ≡ some u
      → verify_password req.password u.password ≡ false
      → (w' : World e) × (on_login e pb s msg w ≡ done w')
        × (session_at s.sessionid w'.sessions ≡ some (record s { user = some u }))
        × (w'.store ≡ w.store)
        × ((login e (some req) s w).0.code ≡ pos 104)
  unfolding on_login finish_login eqb
  on_login-wrong_password pb s t msg w req u known parsed named wrong =
      let refused = login-wrong req s w u named wrong in
      let s' = record s { user = some u } in
      let rsp = no_user e (pos 104) (text "user is not exist or password is incorrect!") in
      (
        reply s' (pos 1002) (pb.serialize_login_rsp rsp) (put s' w),
        ap (finish_login e pb) (ap (λ r. login e r s w) parsed ∙ refused),
        session_at-update_session (record s { user = some u }) t w.sessions known,
        refl,
        rw refused refl,
      )

  rsp-code_0 : (r : ℕ) → (add_user_rsp r).code ≡ pos 0 → r ≡ 0
  unfolding add_user_rsp
  rsp-code_0 r h = ground arith

  verified-made :
      (req : RegisterReq) (w : World e)
      → (register_verified e req w).0.code ≡ pos 0
      → (st : Store e) × ((add_user e (account_of req) st).0 ≡ 0)
        × ((register_verified e req w).1.store ≡ (add_user e (account_of req) st).1)
  unfolding register_verified
  verified-made req w h =
      let verdict = verify_code e req.email req.code w.store.ext in
      elim (Bool-cases w.clients.mail) [
        | inr off ↦ absurd (ground arith)
        | inl on ↦ elim (Bool-cases verdict.0.0) [
          | inr wrong ↦ absurd (ground arith)
          | inl right ↦ (
            record w.store { ext = verdict.1 },
            rsp-code_0 _ (rw (on, register_verified, right) at h),
            rw (on, register_verified, right) refl,
          )
        ]
      ]

  -- What a registration with code 0 has done: AddUser has made the account.
  register-made :
      (req : RegisterReq) (w : World e)
      → (register e (some req) w).0.code ≡ pos 0
      → (st : Store e) × ((add_user e (account_of req) st).0 ≡ 0)
        × ((register e (some req) w).1.store ≡ (add_user e (account_of req) st).1)
        × (is_empty req.username ≡ false)
        × (is_empty req.password ≡ false)
  unfolding register
  register-made req w h =
      elim (Bool-cases (
        is_empty req.username
        || (is_empty req.nickname
            || (is_empty req.password || (is_empty req.email || is_empty req.code))))) [
              | inl missing ↦ absurd (ground arith)
              | inr given ↦ elim (Bool-cases (is_valid_username req.username)) [
                | inr invalid ↦ absurd (ground arith)
                | inl valid ↦ elim (Bool-cases (ltb 60 (length req.nickname))) [
                  | inl long ↦ absurd (ground arith)
                  | inr short ↦
                      let (st, made, kept) =
                        verified-made req w (rw (given, register, valid, short) at h) in
                      (
                        st,
                        made,
                        rw (given, register, valid, short) kept,
                        ground arith,
                        ground arith,
                      )
                ]
              ]
            ]

  -- An account that OnRegisterResponse makes can be logged into: after code 0 for a registration, a
  -- login with the same name and password, on any session, gets code 0.
  pub register-login :
      (req : RegisterReq) (s : ClientSession) (clienttype status : ℤ) (w : World e)
      → (register e (some req) w).0.code ≡ pos 0
      → (login e
          (some (record {
            username = req.username;
            password = req.password;
            clienttype = clienttype;
            status = status;
          }))
          s
          (register e (some req) w).1).0.code
        ≡ pos 0
  register-login req s clienttype status w h =
      let (st, made, kept, name, pass) = register-made req w h in
      let (u, found, right) = add_user-login e (account_of req) st made in
      (login-ok _ s (register e (some req) w).1).1 (u, rw (name, pass, kept) found, right)
