-- ===== src/Session/Approvals/Stored.antt =====
-- Which requests OnHandleRequestResponse (IMServer/IMServer/ClientSession.cpp) decides.
use aim_server.Common.{◌≡◌, refl, some, ℤ}
use aim_server.Env.{Env}
use aim_server.Proto.{Protobuf, HandleRequestReq}
use aim_server.Users.User.{User, FriendRequestInfo}
use aim_server.Users.Statements
use aim_server.Users.Requests.{get_friend_request_by_id}
use aim_server.Session.State.{World, on_ext}
use aim_server.Session.Approvals.{decide_request, handle_request}

module _ (e : Env) (pb : Protobuf) where
  -- The world when the request has been looked up.
  abbrev pub looked_up : ℤ → World e → World e
  looked_up id w = (on_ext (get_friend_request_by_id e id) w).1

  pub handle_request-found :
      (req : HandleRequestReq) (u : User) (w : World e) (r : FriendRequestInfo)
      → (get_friend_request_by_id e req.reqid w.store.ext).0 ≡ some r
      → handle_request e pb req u w ≡ decide_request e pb req r u (looked_up req.reqid w)
  unfolding handle_request
  handle_request-found req u w r found = rw (found, handle_request) refl
