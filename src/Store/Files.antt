-- ===== src/Store/Files.antt =====
-- internal/store/store.go: the life of a file's row.
use Prim.Native.String.{◌++◌ as text_append}
use nox_app.Base.{
  ℕ, ◌+◌, String, Bool, true, false, not, ◌&&◌, Option, none, some, List, [], ◌∷◌, ◌++◌, ltb, ◌==◌,
  same, holds, is_none, map,
}
use nox_app.Sql.{select, update, delete, count, where_rows}
use nox_app.Db.{Db, Attachment, FileRow}
use nox_app.Tx.{
  Tx, Result, ok, err, pure, ◌>>=◌, ◌>>◌, read, write, require, file_not_found, internal,
}
use nox_app.Store.Identity.{Entropy}

-- Ten years.
abbrev pub attachment_lifetime_seconds : ℕ
attachment_lifetime_seconds = 315360000

abbrev pub is_file : String → FileRow → Bool
is_file id f = same f.attachment.file_id id

-- An INSERT into files: refused for an id that is there, and for an empty name, size or type.
unfoldable pub insert_file : FileRow → Tx (Unit {0})
insert_file row = do
  ids ← read (λ db. count (is_file row.attachment.file_id) db.files)
  require (ids == 0) internal
  require
      (not (same row.attachment.name "")
        && ltb 0 row.attachment.size
        && not (same row.attachment.mime ""))
      internal
  write (λ db. record db { files = db.files ++ row ∷ [] })

unfoldable pub create_upload : Entropy → String → ℕ → String → ℕ → Tx Attachment
create_upload rnd name size mime now = do
  let att : Attachment = record {
    file_id = text_append "f_" rnd.id;
    name = name;
    size = size;
    mime = mime;
    expires_at = now + attachment_lifetime_seconds;
  }
  insert_file (record { attachment = att; created_at = now; uploaded = false; message_id = none })
  pure att

unfoldable pub mark_uploaded : String → Tx (Unit {0})
mark_uploaded id = do
  n ← read (λ db. count (λ f. is_file id f && not f.uploaded) db.files)
  write λ db. record db {
    files =
        update (λ f. is_file id f && not f.uploaded) (λ f. record f { uploaded = true }) db.files;
  }
  require (not (n == 0)) file_not_found

abbrev pub row_or_missing : Option FileRow → Result FileRow
row_or_missing none = err file_not_found
row_or_missing (some f) = ok f

unfoldable pub file_by_id : String → Db → Result FileRow
file_by_id id db = row_or_missing (select (is_file id) db.files)

unfoldable pub orphan_files : ℕ → Db → List String
orphan_files cutoff db =
    map (λ f. f.attachment.file_id)
      (where_rows (λ f. is_none f.message_id && ltb f.created_at cutoff) db.files)

-- A DELETE of files: refused while a message refers to the row.
unfoldable pub delete_file : String → Tx (Unit {0})
delete_file id = do
  messages ← read (λ db. count (λ m. holds m.file_id id) db.messages)
  require (messages == 0) internal
  write (λ db. record db { files = delete (is_file id) db.files })

-- DeleteFiles has no transaction around its loop: what it deleted before a refusal stays deleted.
unfoldable pub delete_files : List String → Db → Db × Result (Unit {0})
delete_files [] db = (db, ok tt)
delete_files (id ∷ ids) db = elim (delete_file id db) [
  | ok (_, db') ↦ delete_files ids db'
  | err e ↦ (db, err e)
]
