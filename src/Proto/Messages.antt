-- ===== src/Proto/Messages.antt =====
-- The messages of IMServer/IMServer/im.proto, one record for each. A string or bytes field is its
-- bytes; a message field that may be absent is an Option. RegisterRsp, OperateFriendRsp,
-- SendRequestRsp and HandleRequestRsp have the fields of CommonRsp, which stands for them.
use aim_server.Common.{Bool, Option, List, Bytes, ℤ}

pub record MessageContainer : Type 0 where
  pub cmd : ℤ
  pub seq : ℤ
  pub target_id : ℤ
  pub targets : Bytes
  pub payload : Bytes

pub record CommonRsp : Type 0 where
  pub code : ℤ
  pub msg : Bytes

pub record UserInfo : Type 0 where
  pub userid : ℤ
  pub username : Bytes
  pub nickname : Bytes
  pub facetype : ℤ
  pub customface : Bytes
  pub gender : ℤ
  pub birthday : ℤ
  pub signature : Bytes
  pub address : Bytes
  pub phonenumber : Bytes
  pub mail : Bytes
  pub status : ℤ
  pub clienttype : ℤ
  pub ownerid : ℤ
  pub grouprole : ℤ

pub record RegisterReq : Type 0 where
  pub username : Bytes
  pub nickname : Bytes
  pub password : Bytes
  pub email : Bytes
  pub code : Bytes

pub record SendEmailCodeReq : Type 0 where
  pub email : Bytes

pub record SendEmailCodeRsp : Type 0 where
  pub code : ℤ
  pub msg : Bytes
  pub cooldown_seconds : ℤ

pub record UpgradeVipReq : Type 0 where
  pub userid : ℤ
  pub payment_token : Bytes
  pub amount_cents : ℤ

pub record UpgradeVipRsp : Type 0 where
  pub code : ℤ
  pub msg : Bytes
  pub is_vip : Bool

pub record LoginReq : Type 0 where
  pub username : Bytes
  pub password : Bytes
  pub clienttype : ℤ
  pub status : ℤ

pub record LoginRsp : Type 0 where
  pub code : ℤ
  pub msg : Bytes
  pub user : Option UserInfo
  pub is_vip : Bool

pub record FriendListRsp : Type 0 where
  pub code : ℤ
  pub msg : Bytes
  pub friends : List UserInfo

pub record FindUserReq : Type 0 where
  pub type : Bytes
  pub keyword : Bytes

pub record FindUserRsp : Type 0 where
  pub code : ℤ
  pub msg : Bytes
  pub user : Option UserInfo

pub record OperateFriendReq : Type 0 where
  pub type : ℤ
  pub friendid : ℤ

pub record FriendRequest : Type 0 where
  pub reqid : ℤ
  pub fromid : ℤ
  pub fromname : Bytes
  pub fromface : Bytes
  pub toid : ℤ
  pub reqtype : ℤ
  pub groupid : ℤ
  pub groupname : Bytes
  pub timestamp : ℤ
  pub message : Bytes

pub record SendRequestReq : Type 0 where
  pub reqtype : ℤ
  pub targetid : ℤ
  pub groupid : ℤ
  pub message : Bytes

pub record PendingRequestsRsp : Type 0 where
  pub code : ℤ
  pub msg : Bytes
  pub requests : List FriendRequest

pub record HandleRequestReq : Type 0 where
  pub reqid : ℤ
  pub action : ℤ

pub record UserStatusChangeNotify : Type 0 where
  pub type : ℤ
  pub userid : ℤ
  pub customface : Bytes

pub record UpdateUserInfoReq : Type 0 where
  pub nickname : Bytes
  pub facetype : ℤ
  pub customface : Bytes
  pub gender : ℤ
  pub birthday : ℤ
  pub signature : Bytes
  pub address : Bytes
  pub phonenumber : Bytes
  pub mail : Bytes

pub record ModifyPasswordReq : Type 0 where
  pub oldpassword : Bytes
  pub newpassword : Bytes

pub record CreateGroupReq : Type 0 where
  pub groupname : Bytes

pub record CreateGroupRsp : Type 0 where
  pub code : ℤ
  pub msg : Bytes
  pub groupid : ℤ
  pub groupname : Bytes

pub record GetGroupMembersReq : Type 0 where
  pub groupid : ℤ

pub record GetGroupMembersRsp : Type 0 where
  pub code : ℤ
  pub msg : Bytes
  pub members : List UserInfo

pub record KickGroupMemberReq : Type 0 where
  pub groupid : ℤ
  pub memberid : ℤ

pub record KickGroupMemberRsp : Type 0 where
  pub code : ℤ
  pub msg : Bytes
  pub groupid : ℤ
  pub memberid : ℤ

pub record RenameGroupReq : Type 0 where
  pub groupid : ℤ
  pub newname : Bytes

pub record RenameGroupRsp : Type 0 where
  pub code : ℤ
  pub msg : Bytes
  pub groupid : ℤ
  pub newname : Bytes

pub record SetGroupAdminReq : Type 0 where
  pub groupid : ℤ
  pub memberid : ℤ
  pub is_admin : Bool

pub record SetGroupAdminRsp : Type 0 where
  pub code : ℤ
  pub msg : Bytes
  pub groupid : ℤ
  pub memberid : ℤ
  pub is_admin : Bool

pub record ChatMsg : Type 0 where
  pub senderid : ℤ
  pub targetid : ℤ
  pub content : Bytes
  pub timestamp : ℤ
  pub skill : Bytes
  pub context : List Bytes
  pub msg_type : ℤ
  pub media_url : Bytes
  pub duration : ℤ
  pub file_size : ℤ
  pub thumb_url : Bytes
  pub file_name : Bytes

pub record MultiChatTargets : Type 0 where
  pub targets : List ℤ
  pub content : Bytes

pub record AvatarUploadReq : Type 0 where
  pub image_data : Bytes
  pub format : Bytes
  pub target_id : ℤ

pub record AvatarUploadRsp : Type 0 where
  pub code : ℤ
  pub msg : Bytes
  pub url : Bytes

pub record ChatHistoryReq : Type 0 where
  pub targetid : ℤ

pub record ChatHistoryRsp : Type 0 where
  pub code : ℤ
  pub msg : Bytes
  pub targetid : ℤ
  pub messages : List ChatMsg
