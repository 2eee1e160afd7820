-- ===== src/Rpc.antt =====
-- The RPC library of rpc/: the wire format, connections and the poll manager, the thread pool, the
-- client with its window of replies, and the server with its windows of requests.
pub mod XidWindow
pub mod ReplyWindow
pub mod Marshall
pub mod Unmarshall
pub mod Codec
pub mod Server
pub mod Time
pub mod Connection
pub mod Pool
pub mod Poll
pub mod Client
