-- ===== src/Database/Schema/Tables.antt =====
-- The tables that the constructor of MySqlManager declares (IMServer/IMServer/MySqlManager.cpp).
use aim_server.Common.{List, [], ◌∷◌, Bytes, String, text}
use aim_server.Database.Fields.{assign, insert}
use aim_server.Database.Schema.{FieldInfo, TableInfo}

-- `{ name, type, desc }`.
column : String → String → String → FieldInfo
unfolding text
column name type desc = record { name = text name; type = text type; desc = text desc }

-- `info.mapField[f.name] = f`, for one field after the other.
assign_fields : List FieldInfo → List (Bytes × FieldInfo) → List (Bytes × FieldInfo)
unfolding assign
assign_fields [] m = m
assign_fields (f ∷ fs) m = assign_fields fs (assign f.name f m)

table : String → List FieldInfo → String → TableInfo
unfolding assign_fields text
table name fields key = record {
  name = text name;
  fields = assign_fields fields [];
  key = text key;
}

pub t_user : TableInfo
unfolding table column
t_user =
    table "t_user"
      (column "f_id" "bigint(20) NOT NULL AUTO_INCREMENT COMMENT '自增ID'" "bigint(20)"
        ∷ column "f_user_id" "bigint(20) NOT NULL COMMENT '用户ID'" "bigint(20)"
        ∷ column "f_username" "varchar(64) NOT NULL COMMENT '用户名'" "varchar(64)"
        ∷ column "f_nickname" "varchar(64) NOT NULL COMMENT '用户昵称'" "varchar(64)"
        ∷ column "f_password" "varchar(128) NOT NULL COMMENT '用户密码'" "varchar(128)"
        ∷ column "f_facetype" "int(10) DEFAULT 0 COMMENT '用户头像类型'" "int(10)"
        ∷ column "f_customface" "varchar(255) DEFAULT NULL COMMENT '自定义头像URL'" "varchar(255)"
        ∷ column "f_customfacefmt" "varchar(6) DEFAULT NULL COMMENT '自定义头像格式'" "varchar(6)"
        ∷ column "f_gender" "int(2)  DEFAULT 0 COMMENT '性别'" "int(2)"
        ∷ column "f_birthday" "bigint(20)  DEFAULT 19900101 COMMENT '生日'" "bigint(20)"
        ∷ column "f_signature" "varchar(256) DEFAULT NULL COMMENT '地址'" "varchar(256)"
        ∷ column "f_address" "varchar(256) DEFAULT NULL COMMENT '地址'" "varchar(256)"
        ∷ column "f_phonenumber" "varchar(64) DEFAULT NULL COMMENT '电话'" "varchar(64)"
        ∷ column "f_mail" "varchar(256) DEFAULT NULL COMMENT '邮箱'" "varchar(256)"
        ∷ column "f_owner_id" "bigint(20) DEFAULT 0 COMMENT '群账号群主userid'" "bigint(20)"
        ∷ column "f_register_time" "datetime NOT NULL COMMENT '注册时间'" "datetime"
        ∷ column "f_remark" "varchar(64) NULL COMMENT '备注'" "varchar(64)"
        ∷ column "f_update_time"
            "timestamp NOT NULL DEFAULT CURRENT_TIMESTAMP ON UPDATE CURRENT_TIMESTAMP COMMENT '更新时间'"
            "timestamp"
        ∷ [])
      "PRIMARY KEY (f_user_id), INDEX f_user_id (f_user_id), KEY  f_id  ( f_id )"

pub t_chatmsg : TableInfo
unfolding table column
t_chatmsg =
    table "t_chatmsg"
      (column "f_id" "bigint(20) NOT NULL AUTO_INCREMENT COMMENT '自增ID'" "bigint(20)"
        ∷ column "f_senderid" "bigint(20) NOT NULL COMMENT '发送者id'" "bigint(20)"
        ∷ column "f_targetid" "bigint(20) NOT NULL COMMENT '接收者id'" "bigint(20)"
        ∷ column "f_msgcontent" "blob NOT NULL COMMENT '聊天内容/媒体附带文字'" "blob"
        ∷ column "f_msgtype" "int(2) NOT NULL DEFAULT 0 COMMENT '0文本 1语音 2视频 3图片 4文件'" "int(2)"
        ∷ column "f_media_url" "varchar(512) DEFAULT NULL COMMENT '媒体文件URL'" "varchar(512)"
        ∷ column "f_duration" "int(11) NOT NULL DEFAULT 0 COMMENT '语音/视频时长(秒)'" "int(11)"
        ∷ column "f_thumb_url" "varchar(512) DEFAULT NULL COMMENT '视频缩略图URL'" "varchar(512)"
        ∷ column "f_filesize" "bigint(20) NOT NULL DEFAULT 0 COMMENT '文件字节数'" "bigint(20)"
        ∷ column "f_filename" "varchar(256) DEFAULT NULL COMMENT '原始文件名'" "varchar(256)"
        ∷ column "f_create_time"
            "timestamp NOT NULL DEFAULT CURRENT_TIMESTAMP ON UPDATE CURRENT_TIMESTAMP COMMENT '更新时间'"
            "timestamp"
        ∷ column "f_remark" "varchar(64) NULL COMMENT '备注'" "varchar(64)"
        ∷ [])
      "PRIMARY KEY (f_id), INDEX f_id (f_id)"

pub t_user_relationship : TableInfo
unfolding table column
t_user_relationship =
    table "t_user_relationship"
      (column "f_id" "bigint(20) NOT NULL AUTO_INCREMENT COMMENT '自增ID'" "bigint(20)"
        ∷ column "f_user_id1" "bigint(20) NOT NULL COMMENT '用户ID'" "bigint(20)"
        ∷ column "f_user_id2" "bigint(20) NOT NULL COMMENT '用户ID'" "bigint(20)"
        ∷ column "f_remark" "varchar(64) NULL COMMENT '备注'" "varchar(64)"
        ∷ column "f_create_time"
            "timestamp NOT NULL DEFAULT CURRENT_TIMESTAMP ON UPDATE CURRENT_TIMESTAMP COMMENT '更新时间'"
            "timestamp"
        ∷ [])
      "PRIMARY KEY (f_id), INDEX f_id (f_id)"

pub t_offline_msg : TableInfo
unfolding table column
t_offline_msg =
    table "t_offline_msg"
      (column "f_id" "bigint(20) NOT NULL AUTO_INCREMENT COMMENT '自增ID'" "bigint(20)"
        ∷ column "f_userid" "bigint(20) NOT NULL COMMENT '接收者id'" "bigint(20)"
        ∷ column "f_msgtype" "int(2) NOT NULL DEFAULT 1 COMMENT '0=通知 1=聊天'" "int(2)"
        ∷ column "f_content" "blob NOT NULL COMMENT '序列化的MessageContainer'" "blob"
        ∷ column "f_create_time" "timestamp NOT NULL DEFAULT CURRENT_TIMESTAMP COMMENT '创建时间'"
            "timestamp"
        ∷ [])
      "PRIMARY KEY (f_id), INDEX f_userid (f_userid)"

pub t_friend_request : TableInfo
unfolding table column
t_friend_request =
    table "t_friend_request"
      (column "f_id" "bigint(20) NOT NULL AUTO_INCREMENT COMMENT '请求ID'" "bigint(20)"
        ∷ column "f_from_id" "bigint(20) NOT NULL COMMENT '发起者id'" "bigint(20)"
        ∷ column "f_to_id" "bigint(20) NOT NULL COMMENT '接收者id'" "bigint(20)"
        ∷ column "f_reqtype" "int(2) NOT NULL DEFAULT 1 COMMENT '1=好友 2=入群'" "int(2)"
        ∷ column "f_group_id" "bigint(20) DEFAULT 0 COMMENT '入群请求的群ID'" "bigint(20)"
        ∷ column "f_message" "varchar(256) DEFAULT NULL COMMENT '验证留言'" "varchar(256)"
        ∷ column "f_status" "int(2) NOT NULL DEFAULT 0 COMMENT '0=待处理 1=接受 2=拒绝'" "int(2)"
        ∷ column "f_create_time" "timestamp NOT NULL DEFAULT CURRENT_TIMESTAMP COMMENT '创建时间'"
            "timestamp"
        ∷ [])
      "PRIMARY KEY (f_id), INDEX f_to_id (f_to_id)"

pub t_group_admin : TableInfo
unfolding table column
t_group_admin =
    table "t_group_admin"
      (column "f_id" "bigint(20) NOT NULL AUTO_INCREMENT COMMENT '自增ID'" "bigint(20)"
        ∷ column "f_group_id" "bigint(20) NOT NULL COMMENT '群ID'" "bigint(20)"
        ∷ column "f_user_id" "bigint(20) NOT NULL COMMENT '管理员用户ID'" "bigint(20)"
        ∷ column "f_create_time" "timestamp NOT NULL DEFAULT CURRENT_TIMESTAMP COMMENT '创建时间'"
            "timestamp"
        ∷ [])
      "PRIMARY KEY (f_id), INDEX f_group_id (f_group_id)"

insert_tables : List TableInfo → List (Bytes × TableInfo) → List (Bytes × TableInfo)
unfolding insert
insert_tables [] m = m
insert_tables (t ∷ ts) m = insert_tables ts (insert t.name t m)

-- m_mapTable, in the order in which Init goes through it.
pub map_table : List (Bytes × TableInfo)
unfolding insert_tables t_user t_chatmsg t_user_relationship t_offline_msg t_friend_request
    t_group_admin
map_table =
    insert_tables
      (t_user ∷ t_chatmsg ∷ t_user_relationship ∷ t_offline_msg ∷ t_friend_request ∷ t_group_admin
        ∷ [])
      []
