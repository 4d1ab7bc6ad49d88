-- ===== src/Session/Groups.antt =====
-- The handlers for groups: creation, members, and what owners and administrators may do
-- (IMServer/IMServer/ClientSession.cpp).
pub mod Rights
use aim_server.Common.{
  ℕ, Bool, true, false, not, ◌&&◌, ◌||◌, Option, none, some, List, [], ◌∷◌, if◌then◌else◌, ltb,
  ◌==◌, Bytes, c_string, is_empty, ℤ, pos, eqb, ltb_ℤ, text, length,
}
use aim_server.Env.{Env}
use aim_server.Proto.{
  Protobuf, MessageContainer, UserInfo, CreateGroupReq, CreateGroupRsp, GetGroupMembersRsp,
  KickGroupMemberReq, KickGroupMemberRsp, RenameGroupReq, RenameGroupRsp, SetGroupAdminReq,
  SetGroupAdminRsp,
}
use aim_server.Users.User.{User, group_boundary}
use aim_server.Users.Directory.{UserManager, find_user}
use aim_server.Users.Manager.{
  Store, add_group, make_friend_relationship, release_friend_relationship, friend_infos, is_friend,
  is_group_admin, rename_group, set_group_admin,
}
use aim_server.Session.State.{
  ClientSession, World, Outcome, done, crashed, user_info, reply, on_store, notify_user,
  notify_others,
}

-- The smaller and the greater of two ids, as the handlers order them for a relationship.
abbrev pub smaller : ℤ → ℤ → ℤ
smaller a b = if ltb_ℤ a b then a else b

abbrev pub greater : ℤ → ℤ → ℤ
greater a b = if ltb_ℤ a b then b else a

-- Whether a user owns a group or is its administrator.
unfoldable pub can_manage : ℤ → ℤ → UserManager → Bool
can_manage groupid userid m = elim (find_user groupid m) [
  | none ↦ false
  | some g ↦ eqb g.ownerid userid || is_group_admin groupid userid m
]

-- The role in a group: 2 for the owner, 1 for an administrator.
pub group_role : ℤ → ℤ → UserManager → ℤ → ℤ
group_role groupid ownerid m id =
    if eqb id ownerid then pos 2 else if is_group_admin groupid id m then pos 1 else pos 0

pub member_infos : ℤ → ℤ → UserManager → List User → List UserInfo
member_infos groupid ownerid m [] = []
member_infos groupid ownerid m (u ∷ us) =
    record (user_info u) { status = u.status; grouprole = group_role groupid ownerid m u.userid }
    ∷ member_infos groupid ownerid m us

pub get_group_members : ℤ → UserManager → GetGroupMembersRsp
get_group_members groupid m =
    let ownerid : ℤ = elim (find_user groupid m) [ none ↦ pos 0 | some g ↦ g.ownerid ] in
    elim (friend_infos groupid m) [
      | none ↦ record { code = pos 100; msg = text "get group members failed!"; members = [] }
      | some us ↦ record {
        code = pos 0;
        msg = text "ok";
        members = member_infos groupid ownerid m us;
      }
    ]

module _ (e : Env) where
  -- OnAddGroupResponse: the result is not looked at.
  unfoldable pub add_to_group : ℤ → ℤ → World e → World e
  add_to_group userid groupid w =
      (on_store (make_friend_relationship e (smaller userid groupid) (greater userid groupid)) w).1

  -- OnCreateGroupResponse (cmd 1009) for a name that is given.
  unfoldable pub create_group : CreateGroupReq → User → World e → CreateGroupRsp × World e
  unfolding add_to_group
  create_group req u w =
      let (ok, groupid, st) = add_group e (c_string req.groupname) u.userid w.store in
      let w' = record w { store = st } in
      if ok
      then (
        record { code = pos 0; msg = text "ok"; groupid = groupid; groupname = req.groupname },
        add_to_group u.userid groupid w',
      )
      else (
        record {
          code = pos 100;
          msg = text "create group failed!";
          groupid = pos 0;
          groupname = [];
        },
        w',
      )

  abbrev no_group : ℤ → Bytes → CreateGroupRsp
  no_group code msg = record { code = code; msg = msg; groupid = pos 0; groupname = [] }

  unfoldable pub on_create_group :
      Protobuf → ClientSession → MessageContainer → World e → Outcome (World e)
  unfolding create_group
  on_create_group pb s msg w =
      let answer =
        λ (rsp : CreateGroupRsp). reply {e = e} s (pos 1009) (pb.serialize_create_group_rsp rsp) in
      elim (pb.parse_create_group_req msg.payload) [
        | none ↦ done (answer (no_group (pos 101) (text "protobuf parse failed!")) w)
        | some req ↦
            if is_empty req.groupname
            then done (answer (no_group (pos 102) (text "invalid parameter!")) w)
            else elim s.user [
              | none ↦ crashed
              | some u ↦ let (rsp, w') = create_group req u w in done (answer rsp w')
            ]
      ]

  -- OnGetGroupMembersResponse (cmd 1010).
  unfoldable pub on_get_group_members :
      Protobuf → ClientSession → MessageContainer → World e → Outcome (World e)
  on_get_group_members pb s msg w =
      let rsp : GetGroupMembersRsp = elim (pb.parse_get_group_members_req msg.payload) [
        | none ↦ record { code = pos 101; msg = text "protobuf parse failed!"; members = [] }
        | some req ↦ get_group_members req.groupid w.store.manager
      ] in
      done (reply s (pos 1010) (pb.serialize_get_group_members_rsp rsp) w)

  -- OnKickGroupMemberResponse (cmd 1019) behind login and parsing: the code, the message, and the
  -- world afterwards.
  unfoldable pub kick_group_member :
      Protobuf → KickGroupMemberReq → User → World e → (ℤ × Bytes) × World e
  kick_group_member pb req u w =
      let (ok, w') = on_store (release_friend_relationship e req.memberid req.groupid) w in
      elim (find_user req.groupid w.store.manager) [
        | none ↦ ((pos 102, text "群不存在"), w)
        | some g ↦
            if ltb_ℤ req.groupid group_boundary
            then ((pos 102, text "群不存在"), w)
            else if not (eqb g.ownerid u.userid)
            then ((pos 103, text "只有群主可以踢出成员"), w)
            else if eqb req.memberid g.ownerid
            then ((pos 104, text "群主不能踢自己"), w)
            else if not (is_friend req.memberid req.groupid w.store.manager)
            then ((pos 105, text "该成员不在群中"), w)
            else if ok
            then ((pos 0, text "已移出该成员"), notify_user pb req.memberid req.groupid (pos 3) [] w')
            else ((pos 100, text "移出成员失败"), w')
      ]

  unfoldable pub on_kick_group_member :
      Protobuf → ClientSession → MessageContainer → World e → Outcome (World e)
  unfolding kick_group_member
  on_kick_group_member pb s msg w =
      let answer = λ (code : ℤ) (m : Bytes) (g k : ℤ). reply {e = e} s (pos 1019) (
        pb.serialize_kick_group_member_rsp
          (record { code = code; msg = m; groupid = g; memberid = k })) in
      elim s.user [
        | none ↦ done (answer (pos 1) (text "未登录") (pos 0) (pos 0) w)
        | some u ↦ elim (pb.parse_kick_group_member_req msg.payload) [
          | none ↦ done (answer (pos 101) (text "解析请求失败") (pos 0) (pos 0) w)
          | some req ↦
              let (result, w') = kick_group_member pb req u w in
              let (code, m) = result in done (answer code m req.groupid req.memberid w')
        ]
      ]

  -- OnRenameGroupResponse (cmd 1020) behind login and parsing: code, message and new name.
  unfoldable pub rename : Protobuf → RenameGroupReq → User → World e → (ℤ × Bytes × Bytes) × World e
  rename pb req u w =
      let (ok, w') = on_store (rename_group e req.groupid req.newname) w in
      let told : World e = elim (friend_infos req.groupid w'.store.manager) [
        | none ↦ w'
        | some members ↦ notify_others pb u.userid members req.groupid (pos 6) [] w'
      ] in
      if is_empty req.newname || ltb 64 (length req.newname)
      then ((pos 102, text "群名称长度不合法", []), w)
      else elim (find_user req.groupid w.store.manager) [
        | none ↦ ((pos 103, text "群不存在", []), w)
        | some g ↦
            if ltb_ℤ req.groupid group_boundary
            then ((pos 103, text "群不存在", []), w)
            else if not (can_manage req.groupid u.userid w.store.manager)
            then ((pos 104, text "只有群主或管理员可以重命名群", []), w)
            else if ok
            then ((pos 0, text "群名称已更新", req.newname), told)
            else ((pos 100, text "重命名失败", []), w')
      ]

  unfoldable pub on_rename_group :
      Protobuf → ClientSession → MessageContainer → World e → Outcome (World e)
  unfolding rename
  on_rename_group pb s msg w =
      let answer = λ (code : ℤ) (m : Bytes) (g : ℤ) (name : Bytes). reply {e = e} s (pos 1020) (
        pb.serialize_rename_group_rsp
          (record { code = code; msg = m; groupid = g; newname = name })) in
      elim s.user [
        | none ↦ done (answer (pos 1) (text "未登录") (pos 0) [] w)
        | some u ↦ elim (pb.parse_rename_group_req msg.payload) [
          | none ↦ done (answer (pos 101) (text "解析请求失败") (pos 0) [] w)
          | some req ↦
              let (result, w') = rename pb req u w in
              let (code, m, name) = result in done (answer code m req.groupid name w')
        ]
      ]

  -- OnSetGroupAdminResponse (cmd 1021) behind login and parsing.
  unfoldable pub set_admin : Protobuf → SetGroupAdminReq → User → World e → (ℤ × Bytes) × World e
  set_admin pb req u w =
      let (ok, w') = on_store (set_group_admin e req.groupid req.memberid req.is_admin) w in
      elim (find_user req.groupid w.store.manager) [
        | none ↦ ((pos 102, text "群不存在"), w)
        | some g ↦
            if ltb_ℤ req.groupid group_boundary
            then ((pos 102, text "群不存在"), w)
            else if not (eqb g.ownerid u.userid)
            then ((pos 103, text "只有群主可以设置管理员"), w)
            else if eqb req.memberid g.ownerid
            then ((pos 104, text "群主无需设置为管理员"), w)
            else if not (is_friend req.memberid req.groupid w.store.manager)
            then ((pos 105, text "该用户不在群中"), w)
            else if ok
            then (
              (pos 0, if req.is_admin then text "已设为管理员" else text "已取消管理员"),
              notify_user pb req.memberid req.groupid (pos 6) [] w',
            )
            else ((pos 100, text "操作失败"), w')
      ]

  unfoldable pub on_set_group_admin :
      Protobuf → ClientSession → MessageContainer → World e → Outcome (World e)
  unfolding set_admin
  on_set_group_admin pb s msg w =
      let answer = λ (code : ℤ) (m : Bytes) (g k : ℤ) (admin : Bool). reply {e = e} s (pos 1021) (
        pb.serialize_set_group_admin_rsp
          (record { code = code; msg = m; groupid = g; memberid = k; is_admin = admin })) in
      elim s.user [
        | none ↦ done (answer (pos 1) (text "未登录") (pos 0) (pos 0) false w)
        | some u ↦ elim (pb.parse_set_group_admin_req msg.payload) [
          | none ↦ done (answer (pos 101) (text "解析请求失败") (pos 0) (pos 0) false w)
          | some req ↦
              let (result, w') = set_admin pb req u w in
              let (code, m) = result in
              done (answer code m req.groupid req.memberid req.is_admin w')
        ]
      ]
