-- ===== src/Store/Counts.antt =====
-- internal/store/stats.go: the numbers of the service page.
use nox_app.Base.{ℕ, length}
use nox_app.Db.{Db}

pub record Counts : Type 0 where
  pub people : ℕ
  pub devices : ℕ
  pub chats : ℕ
  pub messages : ℕ

-- One statement, so one database for all four.
unfoldable pub count_everything : Db → Counts
count_everything db = record {
  people = length db.users;
  devices = length db.devices;
  chats = length db.chats;
  messages = length db.messages;
}
