-- ===== src/Lib.antt =====
-- c-ares, an asynchronous resolver: its DNS messages, and the life of a query.
--
-- A message is a list `abuf` of bytes, and a pointer into it is an index. A caller gives the number
-- `alen` of the bytes that are the message. The parts and their files:
--   * Wire: the macros of include/ares_dns.h; Wire/Copy: memcpy, memset, strncpy and the like.
--   * Name: the labels and compression pointers of src/lib/ares_expand_name.c (`name_length` and the
--     loops of `ares__expand_name_validated`). Expand: the functions of that file that allocate, and
--     src/lib/ares_expand_string.c.
--   * Query and Create: src/lib/ares_create_query.c. Query writes the message, and Create is
--     `ares_create_query` with its tests. Text: the test for an onion name, which it calls, of
--     src/lib/ares_getnameinfo.c.
--   * Reply: what the parsers share. Reply/Mx, Srv, Naptr, Uri, Caa, Txt, Soa, Ns and Ptr are the
--     functions of src/lib/ares_parse_*_reply.c; Reply/Host is `struct hostent`. Each parser reads the
--     header, the question and the resource records, and calls the expansion of names and strings.
--   * Sort: the classes of addresses and `rfc6724_compare` of src/lib/ares__sortaddrinfo.c; the
--     address of an IPv6 destination is a function from the index of a byte. Sort/Order: the order.
--     Sort/Sorted: `find_src_addr` and `ares__sortaddrinfo`; the answers of the sockets are the record
--     Sockets, and the C library's qsort is the record Qsort, with its documented behaviour. Tests
--     fills them with an insertion sort. Closing a socket is not modelled.
--   * Reply/Bytes: the bytes of a well-formed reply, and what the shared code reads of them.
--     Reply/Mx/Parses and Reply/Srv/Parses: what the two parsers return for such a reply.
--   * Search: src/lib/ares_search.c. A query that goes out is an action, and a list of answers drives
--     the callbacks. Search/Names: what a search should ask for.
--   * Time: the times of src/lib/ares_process.c and src/lib/ares_timeout.c.
--   * Send: `ares__send_query`, `next_server` and `skip_server` of src/lib/ares_process.c, on the
--     servers and one query. The sockets and the allocator answer from a list.
--   * Htable: the hash table of src/lib/ares__htable.c, with the callbacks and their laws as a record,
--     Htable/Stvp: its client src/lib/ares__htable_stvp.c. Htable/Map: the finite map that a table
--     represents. The values that `bucket_free` was called for are kept in a list.
--   * Answer: `same_questions` and `has_opt_rr` of src/lib/ares_process.c; Answer/Process:
--     `process_answer`, with a verdict for what it does with the query.
--   * Start: `ares_send` of src/lib/ares_send.c. The query that it makes has the parts that Send and
--     Answer change, and stands in the table of Htable/Stvp. Start/Identifier and Start/Ask:
--     src/lib/ares_query.c, which makes the message with the code of Create and starts it.
--   * Addr: `ares__parse_into_addrinfo` of src/lib/ares__parse_into_addrinfo.c; Addr/Block and
--     Addr/Host: `ares__addrinfo2hostent`, Addr/Ttl: `ares__addrinfo2addrttl`, both of
--     src/lib/ares__addrinfo2hostent.c; Addr/Reply: src/lib/ares_parse_a_reply.c and
--     src/lib/ares_parse_aaaa_reply.c. The lists of nodes are lists of values.
--   * Tcp: `read_tcp_data` and `write_tcp_data` of src/lib/ares_process.c for one server, and
--     src/lib/ares__close_sockets.c; SendQueue: `advance_tcp_send_queue` and the vector that is
--     written. What `process_answer` and the callbacks behind it do to
--     the connection on which a message came is an argument, any function.
--   * Llist: src/lib/ares__llist.c, with its nodes at the addresses of a heap. A list is destroyed
--     with fuel for its nodes and one more.
--   * Rc4: the generator of src/lib/ares_rand.c, with its key as an argument.
-- Each folder holds the proofs of the file it is named for: Total for safety, Plain and RoundTrip for
-- names without escapes. Result and Cmd are the two monads, and Result/Ensures and Cmd/Safe are total
-- correctness in them, with a rule for each construct. Base has the shared lists, tests and lemmas.
-- Tests has runs on concrete messages and one application of each theorem.
--
-- How C is modelled. An outcome (Result) is `ok`, a status of include/ares.h (`fail`), an access
-- outside a block (`fault`), or a loop that ran out of fuel (`stuck`). A block under construction is
-- the bytes written so far and the room behind them, and a write without room is a fault. Cmd adds the
-- allocator: its state is the list of its coming answers, NULL or a block, and every call behind the
-- last answer succeeds. A node of a result list is a value. A text is its bytes before the terminator;
-- an expanded name can hold a NUL, and what C reads as a string is its bytes before the first one.
-- An `int` is a plain number, since the lengths of a message are far below its range; `|` of values
-- that share no bit is a sum; a TTL is its bit pattern. `name_length` returns -1 as the failure
-- `ebadname`, to which its only caller turns it.
--
-- Fuel. The loops over a name run on `name_fuel alen`, 50 pointers times `alen` positions and one pass
-- more: between two pointers the position grows, and `name_length` refuses more than 50 pointers. The
-- loop over the substrings of a TXT record runs on the length of the record, since each takes a byte
-- at least, and the loop over a name to encode on its length. `next_server` runs on the number of
-- servers times the tries, and one more, since each round counts a try.
--
-- Not modelled: the release of memory and leaks; the opening of sockets, the loops over the servers
-- whose sockets are ready, and the lists in which a channel keeps its queries; the configuration
-- (src/lib/ares_init.c); the lookups of hosts and of names (src/lib/ares_getaddrinfo.c,
-- src/lib/ares_gethostbyaddr.c and the rest of src/lib/ares_getnameinfo.c), which call the parts that
-- are modelled; the skip list; what is copied from other projects, and the tools.
pub mod Base
pub mod Result
pub mod Cmd
pub mod Wire
pub mod Name
pub mod Expand
pub mod Text
pub mod Reply
pub mod Query
pub mod Create
pub mod Htable
pub mod Start
pub mod Addr
pub mod Rc4
pub mod Llist
pub mod SendQueue
pub mod Tcp
pub mod Answer
pub mod Sort
pub mod Search
pub mod Time
pub mod Send
pub mod Tests
