-- ===== src/Proto/Codec.antt =====
-- What the handlers call of the code that protoc generates from im.proto, which the build makes
-- and the repository does not hold. `parse_x` is ParseFromString, `none` for false; `serialize_x`
-- is SerializeAsString. The writer of JSON is the vendored jsoncpp.
use aim_server.Common.{Option, Bytes, ℤ}
use aim_server.Proto.Messages.{
  AvatarUploadReq, AvatarUploadRsp, ChatHistoryReq, ChatHistoryRsp, ChatMsg, CommonRsp,
  CreateGroupReq, CreateGroupRsp, FindUserReq, FindUserRsp, FriendListRsp, FriendRequest,
  GetGroupMembersReq, GetGroupMembersRsp, HandleRequestReq, KickGroupMemberReq, KickGroupMemberRsp,
  LoginReq, LoginRsp, MessageContainer, ModifyPasswordReq, MultiChatTargets, OperateFriendReq,
  PendingRequestsRsp, RegisterReq, RenameGroupReq, RenameGroupRsp, SendEmailCodeReq,
  SendEmailCodeRsp, SendRequestReq, SetGroupAdminReq, SetGroupAdminRsp, UpdateUserInfoReq,
  UpgradeVipReq, UpgradeVipRsp, UserStatusChangeNotify,
}

pub record Protobuf : Type 0 where
  pub parse_register_req : Bytes → Option RegisterReq
  pub parse_login_req : Bytes → Option LoginReq
  pub parse_find_user_req : Bytes → Option FindUserReq
  pub parse_operate_friend_req : Bytes → Option OperateFriendReq
  pub parse_update_user_info_req : Bytes → Option UpdateUserInfoReq
  pub parse_modify_password_req : Bytes → Option ModifyPasswordReq
  pub parse_create_group_req : Bytes → Option CreateGroupReq
  pub parse_get_group_members_req : Bytes → Option GetGroupMembersReq
  pub parse_chat_history_req : Bytes → Option ChatHistoryReq
  pub parse_avatar_upload_req : Bytes → Option AvatarUploadReq
  pub parse_send_email_code_req : Bytes → Option SendEmailCodeReq
  pub parse_upgrade_vip_req : Bytes → Option UpgradeVipReq
  pub parse_send_request_req : Bytes → Option SendRequestReq
  pub parse_handle_request_req : Bytes → Option HandleRequestReq
  pub parse_kick_group_member_req : Bytes → Option KickGroupMemberReq
  pub parse_rename_group_req : Bytes → Option RenameGroupReq
  pub parse_set_group_admin_req : Bytes → Option SetGroupAdminReq
  pub parse_chat_msg : Bytes → Option ChatMsg
  pub parse_multi_chat_targets : Bytes → Option MultiChatTargets
  pub parse_message_container : Bytes → Option MessageContainer
  pub serialize_common_rsp : CommonRsp → Bytes
  pub serialize_login_rsp : LoginRsp → Bytes
  pub serialize_friend_list_rsp : FriendListRsp → Bytes
  pub serialize_find_user_rsp : FindUserRsp → Bytes
  pub serialize_create_group_rsp : CreateGroupRsp → Bytes
  pub serialize_get_group_members_rsp : GetGroupMembersRsp → Bytes
  pub serialize_chat_history_rsp : ChatHistoryRsp → Bytes
  pub serialize_avatar_upload_rsp : AvatarUploadRsp → Bytes
  pub serialize_send_email_code_rsp : SendEmailCodeRsp → Bytes
  pub serialize_upgrade_vip_rsp : UpgradeVipRsp → Bytes
  pub serialize_friend_request : FriendRequest → Bytes
  pub serialize_pending_requests_rsp : PendingRequestsRsp → Bytes
  pub serialize_kick_group_member_rsp : KickGroupMemberRsp → Bytes
  pub serialize_rename_group_rsp : RenameGroupRsp → Bytes
  pub serialize_set_group_admin_rsp : SetGroupAdminRsp → Bytes
  pub serialize_user_status_change_notify : UserStatusChangeNotify → Bytes
  pub serialize_chat_msg : ChatMsg → Bytes
  pub serialize_message_container : MessageContainer → Bytes
  -- What a ChatMsg holds after ParseFromString has failed on some bytes.
  pub partial_chat_msg : Bytes → ChatMsg
  -- The text that jsoncpp writes for the event of a chat message: sender, target, message.
  pub json_chat_event : ℤ → ℤ → ChatMsg → Bytes
