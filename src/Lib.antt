-- ===== src/Lib.antt =====
-- libmixp, a small 9P2000 library in C: 9P messages in a buffer, their transport, and the two ends of
-- a connection, a client that calls and a server that answers.
--
-- How the parts interact. A client takes a fid (Client), builds a call (Fcall), takes a tag for it
-- (Rpc), packs it (Message, on Convert and Compound) and sends it (Transport); whoever reads an answer
-- hands it to the caller with its tag. A server reads a call, finds its fid in a map (Intmap), tests
-- it, runs a function of the file system and answers (Request).
--
-- Parts and files.
-- - Convert: the scalars of libmixp/convert.c (mixp_pu8, mixp_pu16, mixp_pu32, mixp_pu64, mixp_psize and
--   their _store and _load halves) over MIXP_MESSAGE of include/9p-mixp/msgs.h. `Message` holds the
--   block at `data` as a list of bytes, `pos` and `end` as offsets from it, `size` and `mode`.
-- - Compound: the strings, blocks and qids of libmixp/convert.c (mixp_pstring, mixp_pstrings,
--   mixp_pdata, mixp_pqid, mixp_pqids). A `char *` is `none` for NULL or the block that it points to.
-- - Stat: MIXP_STAT of include/9p-mixp/stat.h, mixp_pstat of libmixp/convert.c, mixp_stat_sizeof of
--   libmixp/message.c and mixp_stat_clear of libmixp/stat.c.
-- - Fcall: MIXP_FCALL of include/9p-mixp/fcall.h, the message types of include/9p-mixp/msgs.h, and
--   mixp_fcall_free and the name dump of libmixp/message.c.
-- - Message: ixp_pfcall, mixp_fcall2msg and mixp_msg2fcall of libmixp/message.c. Its children compare
--   them with the protocol's layout (Message/Wire).
-- - Transport: libmixp/transport.c (mread, readn, mixp_recvmsg, mixp_sendmsg) over any system behind the
--   descriptor; Transport/Stream and Transport/Send say what a system has to keep to.
-- - Intmap: the hash table of libmixp/intmap.c.
-- - Rpc: libmixp/rpc.c, the tags of the calls (gettag, puttag), the ring of the waiting callers (enqueue,
--   dequeue), the delivery of answers and the choice of the reader. Rpc/Runs has the orders in which the
--   locked parts of sendrpc and muxrpc can follow each other, and Rpc/Program has muxrpc as the program of one
--   caller, with sendrpc and muxrecv. An rpc is known by a number.
-- - Client: libmixp/client.c, the fids (getfid, putfid), the check of an answer (do_fcall), the transfer
--   unit of an opened file (initfid), and _pread, mixp_read, _pwrite and mixp_write, over muxrpc as a
--   parameter. Client/Files has the calls on paths (walk, walkdir, clunk, mixp_open, mixp_create, mixp_stat,
--   mixp_remove, mixp_close), and Client/Mount mixp_mountfd and mixp_unmount.
--   Client/Connect has mixp_mount and mixp_mount_addr, which put a dialled socket under a mount.
-- - Request: libmixp/request.c, handlereq with createfid, over the maps of Intmap; Request/Answer has the
--   part of mixp_respond that concerns the fids. The file system's functions are a parameter. Request/Reply
--   has mixp_respond whole, down to the bytes that are sent, and Request/Incoming handlefcall, from the
--   bytes that arrive. Request/Accept has mixp_serve_conn.
-- - Server: libmixp/server.c, the chain of a server's connections (ixp_listen, mixp_hangup, ixp_server_close)
--   and the loop over select (prepare_select, handle_conns, mixp_server_loop). Server/Callbacks has what the
--   library's own read functions do to a server.
-- - Addr: libmixp/addr.c, the parsing and the freeing of server addresses.
-- - Ixpc: cmd/ixpc.c, the commands (xread, xwrite, xawrite, xcreate, xremove) over Client; Ixpc/Entries has
--   xls. What a command prints is its result.
-- - Socket: libmixp/socket.c, the dialling and announcing of an address (mixp_dial, mixp_announce and what they
--   call). The calls of the operating system are the parameter `Net`.
-- - Tokenizer: ixp_tokenize of libmixp/util.c.
-- - Fatal: ixp_emalloc, ixp_erealloc and ixp_mfatal of libmixp/util.c.
-- - Examples: tests, and the theorems at concrete inputs.
--
-- How the code is read. A function that changes the message or a value through a pointer returns the
-- new message and the new value. Every definition keeps the order of the source's calls. Numbers are
-- natural numbers, cut by `% 2 ^ w` where the source stores into a narrower type; pointers do not
-- wrap. A store past `end` and a load past `end` are written out as the source has them. A memory
-- fault or a failed assertion that the code can reach is a value: `none` in Message, Rpc and Server,
-- `faults` or `crashes` in Request, Rpc/Program and Ixpc. `malloc` does not fail. The debug print-outs
-- under DEBUG have no counterpart.
--
-- Bounds. A loop over a number of things is a recursion on the number that is left. A loop that waits
-- for its surroundings, or that may not advance, is given a number of rounds, and `none` is a loop
-- that is still running when they are used up. Enough are: in Transport the bytes and the
-- interruptions, and one more, since every round takes a byte or is an interruption; in Client one
-- more than the bytes, if the server answers as the theorems ask, since a round that does not end the
-- loop moves a byte; in Intmap two, since the loops end then or never.
--
-- Not modelled: threads and locks (an operation under a lock is one step), the clean-up of a closed
-- connection of libmixp/request.c, error strings, the options and the main function of cmd/ixpc.c, and
-- cmd/ixp_client.c.
pub mod Base
pub mod Convert
pub mod Compound
pub mod Fcall
pub mod Message
pub mod Intmap
pub mod Stat
pub mod Rpc
pub mod Transport
pub mod Client
pub mod Request
pub mod Server
pub mod Tokenizer
pub mod Addr
pub mod Fatal
pub mod Socket
pub mod Ixpc
mod Examples
