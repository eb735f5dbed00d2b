-- ===== src/Chat.antt =====
-- Conversations of matched users (apps/api/app/services/buddy_chat.py).
pub mod Cursor
pub mod Conversations
pub mod Creation
pub mod Messages
pub mod History
pub mod Reads
pub mod Unread
pub mod Cleanup
pub mod Drained
pub mod Order
pub mod Cuts
pub mod Pages
pub mod Sends
pub mod Replays
pub mod Marks
pub mod Acknowledgements
