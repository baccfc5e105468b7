-- ===== src/Lib.antt =====
-- The client backend of the NOX app. The store, client_backend/internal/store, alone reads and
-- writes the SQLite database: it pairs devices with the one person of a machine, and keeps that
-- person's chats, messages, files and the journal that clients follow. In front of it stand the
-- gate of a locked start, the channel's entry, the check of a connection and the hub of events,
-- client_backend/internal/server, vault, connauth and hub.
--
-- How the parts interact. A device pairs by a token (pairing.go). A machine link joins the device
-- at once; an invite of a paired device opens a request (requests.go) which that device allows,
-- denies or lets expire. Revoking a device (devices.go) closes its requests and voids its invites.
-- Every call of a paired device begins with its identity (identity.go). Chats, messages and files
-- (store.go) are written together with a row of the events table, which clients read from the
-- number they have seen on. A connection takes a place in the entry (channel.go), where it proves a
-- device's key (connauth.go) before the HTTP server sees it; what it writes reaches the other
-- connections through the hub (hub.go), and a file's bytes go by a token of their own (tokens.go).
-- The link that brings a new device here, with the server's key and addresses, is
-- pairing_link.go's. Before all that the gate (gate.go) waits for the password that opens the key
-- file (vault.go), without which the database cannot be read.
--
-- Which file models what.
--   Db             the tables of client_backend/migrations/001_init.sql, one record for a row
--   Tx             a transaction: a function from the database to an answer and the database after
--                  it, or to one of the package's errors; `run` is the deferred Rollback
--   Sql            the statements as operations on lists of rows in rowid order (Sql/Defs), and
--                  their laws
--   Base           Boolean tests, strings as keys, lists measured by native numbers
--   Store/Identity identity.go, and SetLabel of devices.go
--   Store/Tokens   pairing.go less Pair, which is Store/Pairing
--   Store/Requests requests.go
--   Store/Devices  devices.go
--   Store/Journal, Chats, Preview, Files, Messages, ChatFiles
--                  store.go: the events table; CreateChat, RenameChat and ListChats; previewFor;
--                  the files table; SendMessage and ListMessages; ListChatFiles
--   Store/Addresses, ServerKey, Counts
--                  addresses.go, serverkey.go and stats.go; what holds of the first two is in their
--                  modules Laws
--   Store/Starts   EnsureServerIdentity, EnsureJournal and ServerKey as a start calls them, between the calls of
--                  Store/Calls, and what stays through both
--   Store/Effects  what each operation that writes leaves in the tables
--   Store/Calls    the calls on pairing to a server that runs as a data type, the database after one and after a list of
--                  them, and the rules by which a relation between databases holds across a call
--   Store/Closing, Backing, Answers, Replay, Finality, OnePerson, OneLink, Sweep
--                  what holds of pairing
--   Store/Sent, Names, Paging, Lengths
--                  what holds of chats and messages
--   Store/Tests    concrete stores, and runs on them
--   Server/Entry   internal/server/channel.go: the handshakes under way and the room made for each
--                  new one; its modules prove what holds of the two loops (Rounds), of one admission
--                  (Admission, Limits, Own) and of the entry through time (Promises)
--   Server/PairingLink
--                  internal/server/pairing_link.go: building (PairingLink), reading (Parse), the
--                  addresses that a link is given (Issue); the other modules prove the round trip
--   Server/TransferTokens
--                  internal/server/tokens.go, and histories of its two operations
--   Server/Hub     internal/hub/hub.go: the cases of Run as steps; Hub/Alone is the hub as one
--                  subscriber sees it
--   Server/ConnAuth
--                  internal/connauth/connauth.go: the steps that both halves share, Respond (the
--                  server's half) and Device (the device's)
--   Server/Vault   internal/vault/vault.go: the key file, its sealing and its change
--   Server/Gate    internal/server/gate.go: the lock of a starting server; Gate/History is the gate
--                  through the life of a process
--   Server/Unpaired
--                  internal/server/unpaired.go: the places and waits of connections of unpaired keys
--   Server/Tests   concrete entries, links, tokens, hubs, checks and key files
-- A Go method and its model have one name, RevokeDevice and `revoke_device`. Where a method is long
-- its model is a chain of definitions, each named for the part it does.
--
-- What the model takes for granted. Seconds, sizes and counts are natural numbers: an int64 of
-- seconds does not overflow, and neither does an AUTOINCREMENT counter; the ints of ListChats, whose
-- page a client sends, wrap at 64 bits as they do in Go. One write transaction runs
-- at a time, as the single write connection makes it; a read pool that shows an older database is
-- an argument `seen`. Random identifiers, tokens and labels are the argument `Entropy`; a failing
-- draw is a value of it. A statement fails only where a constraint of the schema refuses it, which
-- is the error `internal`; a failing disk is not modelled. The foreign key of paired_user_id and
-- that of a request's token are not checked, since the callers write values they have just read.
-- The tables of package unicode, the search of package strings and the JSON reader are the
-- parameters `fold_case`, `trim_space`, `contains` and `text_body`; the codec and the key pairs of
-- the server key are parameters too. Loops of the store are recursion on a list or on the attempts
-- that are left, so no fuel is needed. Of the server, what a mutex guards is one state and each
-- critical section one function on it; the hub's goroutine takes its events one at a time. A Go
-- string of a pairing link, a key, a challenge, a signature and a body are lists of bytes. Package
-- net, base64, utf8, json, RustSecureBox and the reading of HTTP requests are the parameters
-- `NetLib`, `NetIp`, `AuthLib`, `VaultLib` and `Arrival`, and what the proofs rely on of them is in
-- `NetLaws`, `AuthLaws` and `VaultLaws`. The two loops of an admission run on one round more than there are handshakes
-- pending, since each round but the last takes one away, and so does the loop over the places of unpaired
-- connections; the loop over a link's addresses runs on
-- one round more than their bytes, since each round reads two bytes at least. A connection, like a
-- subscriber of the hub, is a number that is used once.
--
-- Not modelled: the HTTP handlers and the pages of the service page; TLS, sockets and their deadlines, the sealing of secrets, backups and the files on
-- disk, which are input and output or other libraries' cryptography; and the snapshot of a backup.
-- The client application is written in another language.
pub mod Base
pub mod Sql
pub mod Db
pub mod Tx
pub mod Store
pub mod Server
