-- ===== src/Session/Services.antt =====
-- The handlers that pass a request on to a Go service (IMServer/IMServer/ClientSession.cpp), with
-- the methods of MailGrpcClient, AvatarGrpcClient and AgentGrpcClient that they call.
use aim_server.Common.{
  ℕ, Bool, true, false, not, ◌||◌, none, some, [], ◌∷◌, ◌++◌, if◌then◌else◌, ◌==◌, Bytes, is_empty,
  ℤ, pos, eqb, leb_ℤ, text,
}
use aim_server.Env.{Env, failed, answered}
use aim_server.Proto.{
  Protobuf, MessageContainer, AvatarUploadReq, AvatarUploadRsp, SendEmailCodeReq, SendEmailCodeRsp,
  UpgradeVipRsp,
}
use aim_server.Users.User.{User, group_boundary}
use aim_server.Users.Directory.{find_user}
use aim_server.Users.Manager.{friend_infos, update_user_info}
use aim_server.Session.State.{
  ClientSession, World, Outcome, done, reply, put, on_store, on_ext, notify_users, notify_others,
}
use aim_server.Session.Groups.{can_manage}

pub contains : ℕ → Bytes → Bool
contains c [] = false
contains c (d ∷ s) = (c == d) || contains c s

-- MailGrpcClient::SendCode, as the response that OnSendEmailCodeResponse makes of its result.
pub send_code : (e : Env) → Bytes → e.State → SendEmailCodeRsp × e.State
send_code e email ext =
    let (rpc, ext') = e.stub_send_code email ext in
    elim rpc [
      | failed m ↦
          (record { code = pos 3; msg = text "gRPC error: " ++ m; cooldown_seconds = pos 0 }, ext')
      | answered rsp ↦
          (record { code = rsp.code; msg = rsp.msg; cooldown_seconds = rsp.cooldown_seconds }, ext')
    ]

-- AvatarGrpcClient::Upload: `ok`, and `url` or `errMsg`.
pub upload : (e : Env) → ℤ → Bytes → Bytes → e.State → (Bool × Bytes) × e.State
upload e userid image format ext =
    let (rpc, ext') = e.stub_upload userid image format ext in
    elim rpc [
      | failed m ↦ ((false, text "gRPC error: " ++ m), ext')
      | answered rsp ↦
          if eqb rsp.code (pos 0) then ((true, rsp.url), ext') else ((false, rsp.msg), ext')
    ]

-- AgentGrpcClient::upgradeVip, as the response that OnUpgradeVipResponse makes of its result.
pub upgrade_vip : (e : Env) → ℤ → Bytes → ℤ → e.State → UpgradeVipRsp × e.State
upgrade_vip e userid token amount ext =
    let (rpc, ext') = e.stub_upgrade_vip userid token amount ext in
    elim rpc [
      | failed m ↦ (record { code = pos 1; msg = text "会员服务不可用: " ++ m; is_vip = false }, ext')
      | answered rsp ↦ (
        record {
          code = if eqb rsp.code (pos 0) then pos 0 else pos 1;
          msg = rsp.msg;
          is_vip = rsp.is_vip;
        },
        ext',
      )
    ]

module _ (e : Env) (pb : Protobuf) where
  -- OnSendEmailCodeResponse behind the parsing.
  unfoldable pub send_email_code : SendEmailCodeReq → World e → SendEmailCodeRsp × World e
  unfolding contains
  send_email_code req w =
      let (rsp, w') = on_ext (send_code e req.email) w in
      if is_empty req.email || (not (contains b'@' req.email) || not (contains b'.' req.email))
      then (record { code = pos 2; msg = text "邮箱格式错误"; cooldown_seconds = pos 0 }, w)
      else if w.clients.mail
      then (rsp, w')
      else (record { code = pos 3; msg = text "邮件服务未配置"; cooldown_seconds = pos 0 }, w)

  -- cmd 1013.
  unfoldable pub on_send_email_code : ClientSession → MessageContainer → World e → Outcome (World e)
  unfolding send_email_code
  on_send_email_code s msg w =
      let answer = λ (rsp : SendEmailCodeRsp).
        reply {e = e} s (pos 1013) (pb.serialize_send_email_code_rsp rsp) in
      elim (pb.parse_send_email_code_req msg.payload) [
        | none ↦
            done (answer (record { code = pos 3; msg = text "解析请求失败"; cooldown_seconds = pos 0 }) w)
        | some req ↦ let (rsp, w') = send_email_code req w in done (answer rsp w')
      ]

  -- OnUpgradeVipResponse (cmd 1014): the session's user, if there is one, goes before the id in
  -- the request.
  unfoldable pub on_upgrade_vip : ClientSession → MessageContainer → World e → Outcome (World e)
  on_upgrade_vip s msg w =
      let answer =
        λ (rsp : UpgradeVipRsp). reply {e = e} s (pos 1014) (pb.serialize_upgrade_vip_rsp rsp) in
      elim (pb.parse_upgrade_vip_req msg.payload) [
        | none ↦ done (answer (record { code = pos 1; msg = text "解析请求失败"; is_vip = false }) w)
        | some req ↦
            let userid : ℤ = elim s.user [ none ↦ req.userid | some u ↦ u.userid ] in
            let (rsp, w') = on_ext (upgrade_vip e userid req.payment_token req.amount_cents) w in
            if w.clients.agent
            then done (answer rsp w')
            else done (answer (record { code = pos 2; msg = text "会员服务未配置"; is_vip = false }) w)
      ]

  abbrev no_url : ℤ → Bytes → AvatarUploadRsp
  no_url code msg = record { code = code; msg = msg; url = [] }

  -- OnAvatarUploadResponse for the picture of a group.
  unfoldable pub upload_group_avatar : AvatarUploadReq → User → World e → AvatarUploadRsp × World e
  upload_group_avatar req u w = elim (find_user req.target_id w.store.manager) [
    | none ↦ (no_url (pos 4) (text "群不存在"), w)
    | some g ↦
        let (result, w1) = on_ext (upload e req.target_id req.image_data req.format) w in
        let (ok, url) = result in
        let (_, w2) =
          on_store (update_user_info e req.target_id (record g { customface = url })) w1 in
        let told : World e = elim (friend_infos req.target_id w2.store.manager) [
          | none ↦ w2
          | some members ↦ notify_others pb u.userid members req.target_id (pos 5) url w2
        ] in
        if not (can_manage req.target_id u.userid w.store.manager)
        then (no_url (pos 5) (text "只有群主或管理员可更换群头像"), w)
        else if ok
        then (record { code = pos 0; msg = text "群头像已更新"; url = url }, told)
        else (no_url (pos 2) url, w1)
  ]

  -- For the user's own picture; the session's copy of the user changes too.
  unfoldable pub upload_own_avatar :
      AvatarUploadReq → ClientSession → User → World e → AvatarUploadRsp × World e
  upload_own_avatar req s u w =
      let (result, w1) = on_ext (upload e u.userid req.image_data req.format) w in
      let (ok, url) = result in
      let u' = record u { customface = url } in
      let w2 = put (record s { user = some u' }) w1 in
      let (_, w3) = on_store (update_user_info e u.userid u') w2 in
      let told : World e = elim (friend_infos u.userid w3.store.manager) [
        | none ↦ w3
        | some friends ↦ notify_users pb friends u.userid (pos 5) url w3
      ] in
      if ok
      then (record { code = pos 0; msg = text "上传成功"; url = url }, told)
      else (no_url (pos 2) url, w1)

  -- OnAvatarUploadResponse (cmd 1012).
  unfoldable pub on_avatar_upload : ClientSession → MessageContainer → World e → Outcome (World e)
  unfolding upload_group_avatar upload_own_avatar
  on_avatar_upload s msg w =
      let answer = λ (rsp : AvatarUploadRsp).
        reply {e = e} s (pos 1012) (pb.serialize_avatar_upload_rsp rsp) in
      elim (pb.parse_avatar_upload_req msg.payload) [
        | none ↦ done (answer (no_url (pos 1) (text "解析请求失败")) w)
        | some req ↦ elim s.user [
          | none ↦ done (answer (no_url (pos 1) (text "未登录")) w)
          | some u ↦
              let (group_rsp, group_w) = upload_group_avatar req u w in
              let (own_rsp, own_w) = upload_own_avatar req s u w in
              if not w.clients.avatar
              then done (answer (no_url (pos 3) (text "Avatar服务未配置")) w)
              else if leb_ℤ group_boundary req.target_id
              then done (answer group_rsp group_w)
              else done (answer own_rsp own_w)
        ]
      ]
