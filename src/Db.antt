-- ===== src/Db.antt =====
-- The tables of migrations/001_init.sql, as lists of rows in rowid order. A nullable column is an
-- `Option`, an INTEGER a natural number.
use nox_app.Base.{ℕ, String, Bool, Option, List}

-- `pair_tokens.kind`.
pub data Kind : Type 0 where
  machine invite_device : Kind
  other_kind : String → Kind

-- `pair_requests.outcome`; a waiting request has none.
pub data Outcome : Type 0 where
  allowed denied expired cancelled : Outcome

pub record UserRow : Type 0 where
  pub user_id : String
  pub label : String
  pub created_at : ℕ

pub record DeviceRow : Type 0 where
  pub device_key : String
  pub user_id : String
  pub platform : String
  pub created_at : ℕ
  pub last_seen_at : ℕ

pub record TokenRow : Type 0 where
  pub token : String
  pub kind : Kind
  pub user_id : Option String
  pub issuer_key : Option String
  pub created_at : ℕ
  pub expires_at : ℕ
  pub used_at : Option ℕ
  pub used_by : Option String
  pub paired_user_id : Option String
  pub created_person : Bool

pub record RequestRow : Type 0 where
  pub request_id : String
  pub token : String
  pub device_key : String
  pub platform : String
  pub issuer_key : String
  pub expires_at : ℕ
  pub outcome : Option Outcome
  pub decided_at : Option ℕ

-- protocol.Attachment and protocol.Message: what the wire and the journal carry.
pub record Attachment : Type 0 where
  pub file_id : String
  pub name : String
  pub size : ℕ
  pub mime : String
  pub expires_at : ℕ

pub record Message : Type 0 where
  pub message_id : String
  pub seq : ℕ
  pub chat_id : String
  pub author_id : String
  pub author_label : String
  pub client_message_id : String
  pub sent_at : ℕ
  pub body : String
  pub attachment : Option Attachment

-- protocol.Chat.
pub record Chat : Type 0 where
  pub chat_id : String
  pub name : String
  pub created_at : ℕ
  pub created_by_label : String
  pub last_message_preview : String
  pub last_activity_at : ℕ

-- A chats row: the chat of the wire, and the folded name of the unique index.
pub record ChatRow : Type 0 where
  pub chat : Chat
  pub name_ci : String

pub record FileRow : Type 0 where
  pub attachment : Attachment
  pub created_at : ℕ
  pub uploaded : Bool
  pub message_id : Option String

pub record MessageRow : Type 0 where
  pub message_id : String
  pub seq : ℕ
  pub chat_id : String
  pub author_id : String
  pub author_label : String
  pub client_message_id : String
  pub sent_at : ℕ
  pub body : String
  pub file_id : Option String

-- `events.payload`: the value that the JSON text is marshalled from, or the empty text.
pub data Payload : Type 0 where
  no_payload : Payload
  of_chat : Chat → Payload
  of_message : Message → Payload

-- `events.type`, of the kinds that the store writes.
pub data EventType : Type 0 where
  chat_created chat_updated message_new : EventType

pub record EventRow : Type 0 where
  pub seq : ℕ
  pub type : EventType
  pub payload : Payload

-- The one row of server_identity: the keys as base64, the addresses and the start parameters that
-- they were last written from.
pub record ServerRow : Type 0 where
  pub public_key : String
  pub private_key : String
  pub public_address : Option String
  pub onion_address : Option String
  pub public_address_param : Option String
  pub onion_address_param : Option String

-- `last_seq` is AUTOINCREMENT's counter for the events.
pub record Db : Type 0 where
  pub users : List UserRow
  pub devices : List DeviceRow
  pub tokens : List TokenRow
  pub requests : List RequestRow
  pub chats : List ChatRow
  pub files : List FileRow
  pub messages : List MessageRow
  pub events : List EventRow
  pub last_seq : ℕ
  pub journal : Option String
  pub server_identity : Option ServerRow
