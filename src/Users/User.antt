-- ===== src/Users/User.antt =====
-- User and FriendRequestInfo of IMServer/IMServer/UserManager.h.
use aim_server.Common.{List, [], Bytes, ℤ, pos, negsuc}

pub record User : Type 0 where
  pub userid : ℤ
  pub username : Bytes
  pub nickname : Bytes
  pub password : Bytes
  pub facetype : ℤ
  pub customface : Bytes
  pub customfacefmt : Bytes
  pub gender : ℤ
  pub birthday : ℤ
  pub signature : Bytes
  pub address : Bytes
  pub phonenumber : Bytes
  pub mail : Bytes
  pub status : ℤ
  pub ownerid : ℤ
  pub friends : List ℤ
  pub admins : List ℤ

-- The default constructor.
abbrev pub new_user : User
new_user = record {
  userid = negsuc 0;
  username = [];
  nickname = [];
  password = [];
  facetype = negsuc 0;
  customface = [];
  customfacefmt = [];
  gender = negsuc 0;
  birthday = negsuc 0;
  signature = [];
  address = [];
  phonenumber = [];
  mail = [];
  status = pos 0;
  ownerid = negsuc 0;
  friends = [];
  admins = [];
}

pub record FriendRequestInfo : Type 0 where
  pub reqid : ℤ
  pub fromid : ℤ
  pub toid : ℤ
  pub reqtype : ℤ
  pub groupid : ℤ
  pub message : Bytes
  pub createtime : ℤ

-- GROUPID_BOUNDARY of IMServer/IMServer/ClientSession.h: ids from here on belong to groups.
abbrev pub group_boundary : ℤ
group_boundary = pos 0xFFFFFFF
