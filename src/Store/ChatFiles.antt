-- ===== src/Store/ChatFiles.antt =====
-- ListChatFiles of internal/store/store.go.
use nox_app.Base.{ℕ, String, Bool, Option, none, some, List, [], ◌∷◌, ◌++◌}
use nox_app.Sql.{where_rows, order_by}
use nox_app.Db.{Db, Attachment, MessageRow, FileRow}
use nox_app.Store.Messages.{joined_file, page_back, in_page, later}

pub record ChatFileEntry : Type 0 where
  pub attachment : Attachment
  pub message_id : String
  pub seq : ℕ

-- JOIN files.
abbrev pub entry_of : MessageRow → Option FileRow → List ChatFileEntry
entry_of r none = []
entry_of r (some f) =
    record { attachment = f.attachment; message_id = r.message_id; seq = r.seq } ∷ []

unfoldable pub file_entries : List MessageRow → Db → List ChatFileEntry
file_entries [] db = []
file_entries (r ∷ rs) db = entry_of r (joined_file r.file_id db) ++ file_entries rs db

unfoldable pub list_chat_files : String → ℕ → ℕ → Db → List ChatFileEntry × Bool
list_chat_files chat_id before limit db =
    page_back limit
      (file_entries (order_by later (where_rows (in_page chat_id before) db.messages)) db)
