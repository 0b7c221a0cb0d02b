-- ===== src/Lib.antt =====
-- QLadder is a VPN client for iOS. Its packet tunnel hands the packets of the device to a TCP/IP
-- stack in C, a patched lwIP (Carthage/Checkouts/tun2socks/lwip), and picks proxies by country
-- with the database reader libmaxminddb (Carthage/Checkouts/MMDB-Swift/Sources/libmaxminddb).
-- This library models C code of these two.
--
-- Files and code:
-- Timers: lwip/src/core/timers.c as the tunnel builds it (NO_SYS, LWIP_TCP, no other cyclic
--   timer). The linked list `next_timeout` is a list of nodes with relative times; `State` holds
--   the file's variables and the rest of the stack's memory, a parameter. Timers/Deadlines reads
--   the list as absolute deadlines, Timers/Insert and Timers/Remove are about `sys_timeout` and
--   `sys_untimeout`, Timers/Check about `sys_check_timeouts`, and Timers/TcpTimer about
--   `tcpip_tcp_timer` and `tcp_timer_needed` (TcpTimer/Ends: a check ends). Handlers are
--   addresses, and a call through one is a function on the state, so handlers may schedule and
--   cancel.
-- Pbuf: lwip/src/core/pbuf.c. A chain of buffers is a list of records. Pbuf/Content is about the
--   bytes of a packet and `pbuf_copy_partial`, Pbuf/Chain about joining and freeing, Pbuf/Take
--   about `pbuf_take`, Pbuf/Shrink about `pbuf_realloc`, Pbuf/Find about reading, comparing and
--   searching.
-- Mmdb: libmaxminddb/maxminddb.c. `Outcome` has the error codes, a read outside the mapped bytes,
--   which C leaves undefined, and fuel that ran out. Mmdb/Numbers has the big-endian readers,
--   Mmdb/Tree the lookup of an address (Tree/Safe: no wild reads, Tree/Bits: the bits that a lookup
--   tests, Tree/Prefix: what it depends on, Tree/Lookup: the whole lookup, Tree/Node: `MMDB_read_node`), Mmdb/Decode one
--   value of the data section (Decode/Bounds: it stays inside), Mmdb/Skip the skipping of values
--   and the lookup of a path (Skip/Ends: it ends; Skip/Located and Decode/Located: the entry
--   found is the one at its offset). Mmdb/EntryList has `MMDB_get_entry_data_list`
--   (EntryList/Complete: no member is missing, EntryList/Shape: what that is for arrays and
--   maps), Mmdb/Metadata `find_metadata` and the readers of the metadata's values (Metadata/Find
--   and Metadata/Read are about these two), and Mmdb/Open `read_metadata` and `MMDB_open` on the
--   mapped file (Open/Sound: what a caller may rely on).
-- Chksum: lwip/src/core/ipv4/inet_chksum.c, algorithm 2 of `lwip_standard_chksum` on a
--   little-endian machine. Whether a payload begins at an odd address is a parameter. Chksum/Sum
--   is about the sum of a run of bytes, Chksum/Packet about that of a chain of buffers,
--   Chksum/Pseudo about `inet_chksum_pseudo`.
-- Addr: lwip/src/core/ipv4/ip_addr.c and lwip/src/core/def.c. Addr/Mask is about `lwip_htonl` and
--   `ip4_addr_netmask_valid`; Addr/Text has `ipaddr_aton`, `ipaddr_addr` and `ipaddr_ntoa_r`,
--   with a text as the list of its characters (Text/Digits: the digits of a byte, Text/RoundTrip:
--   whole addresses).
-- Tcp: `tcp_process` and `tcp_receive` of lwip/src/core/tcp_in.c and `tcp_output` of tcp_out.c,
--   with the parts of tcp.c that they call. `Pcb` has the fields of `struct tcp_pcb` for
--   receiving, `Sender` those for sending; `Segment` is a `struct tcp_seg` with its header. A
--   failed `LWIP_ASSERT` calls abort, and is `none`. Tcp has the macros on sequence numbers, the
--   announced window, `tcp_recved` and the empty acknowledgement; Tcp/Queue the queue of segments
--   out of sequence, and Tcp/Receive the half of `tcp_receive` from line 1121 on, from the
--   trimming to the delivery. Tcp/Stream says what it is that a segment carries a part of the
--   peer's stream, Tcp/Window is about the window, Queue/Cut, Queue/Sorted and Queue/Walk about
--   the queue, Receive/Trim and Receive/Fit about trimming at either end, Receive/Delivery about
--   what is handed on, Receive/Arrive about one segment, and Tcp/Run about a whole conversation,
--   a step relation of arrivals and of calls of `tcp_recved`. Tcp/Ack is the other half, the
--   handling of an acknowledgement up to that line, with `tcp_rexmit_fast`; Ack/Congestion is
--   about the windows of congestion control, Ack/Accounts about the counters of the queues,
--   Ack/Queues about what is left of them. Tcp/Options has `tcp_parseopt` (Options/Limits: what
--   it reads and gives, Options/RoundTrip: options as a peer writes them). Tcp/Connection joins
--   the two halves, `Pcb` and `Sender`, in `Tcb`, where `mss` and `snd_nxt` stand in both, and
--   has `tcp_pcb_purge`; Tcp/Process has `tcp_process` and `tcp_timewait_input`. The variables
--   that hold the segment are the record `Arrival`, what is returned and left in globals is
--   `Processed`, and the application's functions for a new connection are parameters.
--   Process/Arcs has the moves between states as a relation, RFC 793's diagram with the move from
--   FIN_WAIT_1 to TIME_WAIT that its text adds; Process/Moves, with
--   Receive/States, says that states move along it; Process/Safe is about a segment as a whole,
--   Process/TimeWait about one in TIME_WAIT. Tcp/Output has `tcp_output` with its loop over the
--   unsent queue, where what is handed to IP is kept as a list; Output/Steps is about one
--   segment, Output/Sends about what is sent, Output/Empty about an empty queue, where it is the
--   `tcp_output` of `Pcb`. Tcp/Timer has what `tcp_slowtmr` of tcp.c does for one connection,
--   with `tcp_rexmit_rto`, `tcp_zero_window_probe` and the polling, whose callback is never set;
--   `rtime`, `polltmr` and `pollinterval` are arguments there. Timer/Retry
--   is about the retransmission timer, Timer/Slow about the whole tick. Tcp/Close has `tcp_close`
--   with what it calls, for one connection; Close/Fin is about the FIN, and Close/Orderly says
--   what becomes of it.
-- Prelude: shared names, Boolean tests, lists over native numbers, casts and bit fields of C.
--   Tests: runs on concrete inputs.
--
-- The parts meet in `State` of Timers, whose `world` stands for the other parts of the stack, in
-- the chain of buffers, which Pbuf, Chksum and Tcp share (Tcp cuts, joins and counts chains by
-- the operations of Pbuf), and in the memory: an allocation that can fail is a Boolean argument,
-- and in the database reader `malloc` and `calloc` are parameters that say for which number of
-- bytes, or for the node of which offset, there is memory; `strtol` is one too. lwIP and the
-- database reader do not call each other.
--
-- Loops and fuel: the walk over the search tree and the loops over chains and lists are
-- structural. `check_loop` has fuel, since a handler may schedule again; `skip_loop` has fuel for
-- its rounds and its nesting together, since each round reads a byte further; `memfind_loop` has
-- fuel for the places it looks at and `find_loop` for the markers it finds. The theorems on them
-- say how much is enough. `list_from` counts the depth down from the limit in the code.
-- `options_loop` has fuel for its rounds, one more than the bytes of the options, each of which
-- goes a byte further at least.
--
-- Assumptions: what lookups rely on is the record `IsOpen`, which Open/Sound gets from
-- `MMDB_open`; a data section has at least 3 bytes and less than 4 GB; a packet's buffers hold
-- `len` bytes each and `tot_len` counts right (`IsPacket`). A receive window does not go past
-- 2^32, where sequence numbers wrap around (`IsWindow`), and segments without SYN carry parts of
-- one stream.
--
-- Left out of the definitions: the assertions of pbuf.c on `ref` and `tot_len`, `tcp_pcbs_sane()`,
-- and `PBUF_CHECK_FREE_OOSEQ` in the loop of `sys_check_timeouts`. Where LWIP_ERROR aborts for a
-- NULL buffer, an empty list has the result that stands behind it. `sys_timeout` has memory, since
-- it asserts so.
--
-- Not modelled: the Swift code of the app, the tunnel and the wrappers; the third-party
-- libraries; of TCP the building of segments from an application's data and the bytes of their
-- headers, the demultiplexing and the callbacks of `tcp_input`, listening, connecting and
-- half-closing, the callback of the polling, delayed acknowledgements and the lists of connections; IP and interfaces
-- of lwIP; mapping, closing and printing of a database; the allocation and the headers of packet
-- buffers.
pub mod Prelude
pub mod Timers
pub mod Mmdb
pub mod Pbuf
pub mod Chksum
pub mod Addr
pub mod Tcp
pub mod Tests
