-- ===== src/Lib.antt =====
-- A model of the core of zeroserv, a single-threaded event server in C that runs protocol
-- handlers (echo, HTTP, publish/subscribe, a memcached clone, a datagram router) over one table
-- of descriptors.
--
-- How a C function is modelled: the state that it reads and changes is a record, and the
-- function maps the old state to its result and the new state. `Run` is the result of code that
-- can end the process: `fault` names the reason (an access outside a block, a NULL pointer, a
-- failed assert, `exit(1)`). A block of memory is the list of its bytes or words, a pointer into
-- it is an offset, and a string is the list of its bytes before the terminator. Unsigned
-- integers are numbers below the power of two of their width with the wrap-around written out;
-- `int` is the type of Prelude/Int with the conversions of Prelude/Words.
--
-- The parts of the program and the files that model them:
-- - Buffer: src/buffer.h and src/type/buffer.h, the byte buffer of every connection.
--   `buffer_sprintf` takes the text that the format prints.
-- - Vector: src/common/vector.h, the growing array of pointers that holds the subscribers of a
--   topic, the topics of a subscriber and the sockets of an account.
-- - Signal: src/signal.c, the queue of signals between the signal handler and the main loop.
-- - Echo: src/handler/echo.c, the echo handler over one connection, with what recv and send move
--   chosen by the kernel.
-- - PlainText: src/handler/pubsub.c, the cutting of what a client sent into lines.
-- - PubSub: src/handler/pubsub, the accounts, topics and subscriptions, and the fan-out of a
--   message to the subscribers, over Vector.
-- - UtHash: not a part of the program but the interface of the library src/common/uthash.h,
--   which the parts below take as a parameter. UtHash/Assoc is an instance, an association list.
-- - Epoll: not a part of the program but the kernel's epoll instance as an interface, with an
--   instance in Epoll/Kernel.
-- - Poller: src/poller.c and src/fd.c, the wanted events of every descriptor, the changes not
--   yet told to the kernel, and the table of descriptors. Poller/Sync relates any sequence of
--   calls and a flush to what the kernel watches; Poller/Dispatch is poll_do, with the handlers
--   and the reported events as parameters.
-- - Routing: src/handler_udp/routing, the datagram router: local ports (Routing/Ports), checksum
--   (Routing/Checksum, from src/util.h), packet layout (Routing/Packet), routes
--   (Routing/Routes), and the handling of a received datagram (Routing/Parse), which uses all of
--   them and Buffer.
-- - Memcached: src/handler/memcached.c and src/handler/mc, the memcached clone. Assoc is the
--   hash table of assoc.c, Item and Lru are the items in memory and the list through them, Items
--   is the rest of items.c over one record `Cache` (list, table, counters), Store is
--   do_store_item, Tokens, Conn and Read are the tokenizer, the commands and the handlers of a
--   connection. Items/Inv has the invariant that ties list, table and flags together; Store/Spec
--   is the map of keys to values that the commands promise.
--
-- Fuel: four loops run on fuel, the number of rounds. `mc_read` takes any number, since it need
-- not end; `try_read_network` is given 2, enough since a second read of a full buffer ends the
-- process. `while (1)` in `register_virtual_port` is given 13, enough since at most 13 ports are
-- in use; the loop of `process_plain_text` is given the number of unread bytes, enough since
-- every round takes one at least. All other loops are structural recursion.
--
-- What is not modelled: the libraries that the repository carries (ebtree, uthash, parson, inih,
-- http_parser, the list, tick and date headers of HAProxy and its scheduler), the build files,
-- logging, and the system calls, whose results are parameters. Of the program itself, the slab
-- allocator of the memcached clone (nothing calls it), the statistics of items.c that are
-- commented out, the HTTP handlers, the parser of the publish/subscribe commands with
-- `topic_delete` and the listings, the listeners and the main loop are left out. `malloc` is
-- taken to succeed where the code does not test it; what the vectors ask for and test with an
-- assert is given or not by the allocator `Memory`, and freeing is left out except for the items
-- of the cache.
pub mod Buffer
pub mod Echo
pub mod Epoll
pub mod Memcached
pub mod PlainText
pub mod Poller
pub mod Prelude
pub mod PubSub
pub mod Routing
pub mod Signal
pub mod UtHash
pub mod Vector
