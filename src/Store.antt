-- ===== src/Store.antt =====
-- internal/store, the package that alone reads and writes the database.
pub mod Identity
pub mod Tokens
pub mod Requests
pub mod Pairing
pub mod Devices
pub mod Journal
pub mod Chats
pub mod Preview
pub mod Files
pub mod Messages
pub mod ChatFiles
pub mod Effects
pub mod Closing
pub mod Backing
pub mod Calls
pub mod Answers
pub mod Replay
pub mod Finality
pub mod OnePerson
pub mod OneLink
pub mod Sweep
pub mod Sent
pub mod Names
pub mod Paging
pub mod Lengths
pub mod Addresses
pub mod ServerKey
pub mod Starts
pub mod Counts
mod Tests
