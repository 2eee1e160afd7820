-- ===== src/Lib.antt =====
-- A verification library for a distributed file system: an RPC library (rpc/), an extent server
-- that stores bytes, a lock server whose clients keep their locks, and a file system client over
-- them.
--
-- Clients call servers by messages. rpc/marshall.h turns the arguments of a call into bytes and
-- back; the client of the RPC library numbers its requests (xids) and remembers which replies it
-- has, and the server keeps a window of requests and replies for each client, so that a request
-- that comes twice runs once. Connections carry the messages, called by the poll manager, and a
-- pool of threads runs the server's handlers. The extent server and the lock server are such
-- servers; the file system client calls both, and the caching lock client is called by the lock
-- server too.
--
-- Files:
--   Base            shared names; Base/Int an `int` as a bit pattern, Base/Tests Boolean tests and case
--                   splits, Base/Lists lists with a native length, Base/Assoc `std::map` as an association list, Base/Bits shifts
--   Rpc/XidWindow   rpc/rpc.cc, rpcc::update_xid_rep: the client's list xid_rep_window_; Compress and
--                   Received prove what its front means over any sequence of replies
--   Rpc/ReplyWindow rpc/rpc.cc, rpcs::checkduplicate_and_update and rpcs::add_reply: the list of
--                   reply_t of one client. InOrder and AtMostOnce are about xids that arrive in order,
--                   Reordered about late ones
--   Rpc/Marshall    rpc/marshall.h and rpc/rpc.cc, class marshall: rawbyte, rawbytes, the operators <<
--                   (put_*), pack and the headers. Buffer has the invariant of the memory, Writing
--                   and Header the bytes that are written
--   Rpc/Unmarshall  class unmarshall: rawbyte, rawbytes, the operators >> (get_*), unpack, the
--                   headers, okdone. Reading and Header read back what was written; Overflow is about
--                   the one test that wraps
--   Rpc/Codec       an interface for a type with << and >>; Scalars its instances, Vector the
--                   templates over vectors, Call the arguments of rpcc::call and rpcs::reg
--   Rpc/Time        rpc/rpc.cc: cmp_timespec, add_timespec (carry is its loop), diff_timespec, against
--                   numbers of nanoseconds
--   Rpc/Client      rpc/rpc.cc, class rpcc: begin_call, transmit, end_call, remember and call_result are
--                   the parts of call1 under its mutex, then got_pdu, cancel, and the ends of bind and
--                   call_m (bind_end, call_m_end). Calls interleaves them; Outcome, Acknowledged and
--                   Cancel are about the table of calls. Wait is the loop of call1, with its
--                   sends (transmit_part) and its inner loop of waits (wait_reply): Ends and Once.
--                   Waiters has the threads that sleep in cancel: Waits, Ends and Twice.
--                   Channel has get_refconn and the references of one call
--   Rpc/Server      rpc/rpc.cc, class rpcs: reg1, rpcbind, updatestat. Dispatch has got_pdu and the two
--                   halves of dispatch: arrive up to the handler's call, finish from its return. Windows
--                   and Fixed are lemmas; AtMostOnce, Replies and References are about all clients
--   Rpc/Connection  rpc/connection.cc, class connection: readpdu, writepdu, send (send, try_send,
--                   start_write, send_end), read_cb, write_cb. Reading, Writing and Sending follow a
--                   message through the stream; Refs has incref, decref, closeconn and compare
--                   (compare_age)
--   Rpc/Pool        rpc/fifo.h and rpc/thr_pool.cc: enq, deq, add_job, take_job; Order is about the queue
--   Rpc/Poll        rpc/pollmgr.cc, PollMgr and SelectAIO: block_remove_fd is remove_begin and
--                   remove_end; Watched is about the sets and the callbacks
--   Extent          extent_server.cc: put, get, getattr, remove, resize, getbuf, putbuf on
--                   store_table. Bytes is about contents, Access about two calls in a row, Sizes
--                   about the size attribute; History, Spec and Refinement give the calls of
--                   extent_smain.cc, a specification without tables, and that the server refines it
--   Lock/Server     lock_server_cache.cc: acquire, release, stat, one turn of retryer and of revoker,
--                   and the ends of retryer_rpc and revoker_rpc (retryer_rpc_end, revoker_rpc_end).
--                   Steps interleaves them; Served and Wakeups are about the retryer's queue, Turns
--                   and Fifo about the order of service, Races about what goes wrong
--   Lock/Plain      lock_server.cc: acquire up to a failed test (enter, try_lock), its wait (sleep) and
--                   the test after it (acquire_again), release, which takes no mutex, up to its signal
--                   (release) and from it (release_signal), and stat; Exclusive is about the holders,
--                   Awake about the sleepers
--   Lock/Client     lock_client_cache.cc: acquire is enter, retry_wait and called (after the server's
--                   answer), then release_lock, revoke_at, retry_at, and releaser_rpc as
--                   releaser_begin_at, releaser_wake_at and releaser_end_at. Steps interleaves them with
--                   releaser; Exclusive (with Agrees) is about the holders, Races about what goes wrong
--   Handle          handle.cc: get_handle, done_handle, delete_handle (with delete_handle_wo) and safebind on
--                   a heap of hinfos. Counted is about the references, Uses about any order of uses
--   Yfs/Directory   yfs_client.cc: ent_read, dir_find and the line that dir_add_entry appends;
--                   filename and read_inum print and read an inum (Decimal), Lines is about getline,
--                   Entries about finding what was appended, Blanks about erasing it
--   Yfs/Operations  yfs_client.cc: new_inum, dir_add_entry, create, mkadir, lookup and remove
--                   (remove_entry) over the extent server's state; Create is about a new file, Remove about a
--                   removed one.
--                   Files has getfile, getdir, resize (resize_file), read, write and readir
--
-- State is passed explicitly, and code under one mutex is one step. An `int`, `unsigned` or
-- `size_t` is its bit pattern (32 bits for a `size_t`), with its wrap-around written out where it
-- can matter; a byte is a number below 256 and a string a list of bytes. Time, memory that is not
-- initialised, the answers of other processes, what `random` draws and the thread pool's
-- acceptance of a job are arguments. `none` or `fault` is undefined behaviour, an exception that
-- nobody catches, or a step that cannot be taken. No recursion needs fuel
-- but the printing of an inum, whose fuel is the number of digits, 20, which is enough for 64 bits
-- (Decimal): all others follow a list, a number of rounds, or, in add_timespec, the order of the
-- numbers. The loop of call1 runs on a list of what its rounds meet; 23 rounds are enough for a
-- timeout of 31 bits, since its waits double from 1000 milliseconds on (Rpc/Client/Wait/Ends).
--
-- Not modelled: what sockets do (rpc/connection.cc, class tcpsconn and connect_to_dst), EPollAIO,
-- destructors, the start of threads, the extent client and the plain lock client,
-- which only call the server (extent_client.cc, lock_client.cc), the FUSE front end (fuse.cc), and
-- the programs' start-up and test code. The buffers' sizes in class marshall are taken to stay below 2 ^ 31. RPC_CHECKSUMMING is off, as in
-- the build.
mod Base
pub mod Rpc
pub mod Extent
pub mod Handle
pub mod Lock
pub mod Yfs
