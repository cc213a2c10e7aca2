-- ===== src/Lib.antt =====
-- A verification library for librustyaxe, the C library that the rustyrig programs share.
--
-- The program is a set of components that a radio program links: a dictionary that configuration,
-- JSON and events are kept in, access rules for the sockets, bounded buffers for media, colour codes
-- for chat text, and around them configuration files, an event bus, a terminal interface and wrappers
-- of the system. Of the components modelled here, the JSON parser fills a
-- dictionary; the others call no other component but the log.
--
-- Prelude      names shared by all modules: tests and conditionals on numbers, lists measured by
--              numbers, 32-bit wrap-around, bytes and C strings, bit masks, chains of options.
-- Dict         dict.c and dict.h. Types has the table, the entries and the values; Hash is
--              dict_hash_murmur; Lookup is dict_lookup with its probe loop; Store is dict_store,
--              dict_add_p and dict_resize; Access is dict_get, dict_get_type, dict_del and
--              dict_enumerate_typed. View is the map that a table stands for. Cycle and Lookup.Visits
--              are about the order in which slots are probed, Sound and Counts are the invariant,
--              Overwrite, Commit, Grow, Move and Resize carry it through the operations, Refines
--              and Reads have the theorems about the operations. Number has the typed getters and
--              their string parsers: Real decodes floating-point bit patterns, Strings is parse_ll
--              and parse_ull, Getters the readers; Exact, Bounds, Minus, Blank and Reads have the
--              theorems. Add has the dict_add functions and dict_enumerate. Tidy and Room are about
--              dictionaries without deleted entries, Merge is dict_merge, dict_clone, dict_merge_new
--              and dict_diff; Merge.Loop, Merge.Entries and Merge.Fold are about the loop that they
--              share, Merge.Equal says when dict_values_equal holds, Merge.Bodies is about the
--              bodies of the loops of dict_diff, Merge.Copies and Merge.Differs have the theorems.
-- Acl          acl.c and acl.h. Types has rules and subjects; Parse is address_parse, network_parse,
--              acl_rule_parse and acl_subject_init; Match is acl_rule_match and acl_check. Decide is
--              about the order of the rules, Network about prefixes, Valid and Parsed about what
--              the parsers leave.
-- Ring         ringbuffer.c and ringbuffer.h. Types has the nodes and the store of nodes, Buffer
--              the operations; Chain is the chain of nodes that the pointers make, Evict has the
--              parts of rb_add, Add, Read and Destroy have the theorems.
-- Irc          irc.format.c and irc.format.h. Tables has the palette, Parse is irc_color_parse;
--              Bounds and Print have the theorems.
-- Text         util.string.c and util.string.h. Html is escape_html and unescape_html, Width is
--              ansi_strlen and visible_length; Escaped, Unescaped and Skipped have the theorems.
-- LogQueue     log-queue.c and log-queue.h. Queue is ra_log_queue_new, ra_log_queue_push and
--              ra_log_queue_drain; Fifo has the theorems.
-- Socks        socks.c and socks.h. Types has the connection, Init is rr_socks_init and Event is
--              rr_socks_event, a call of which runs rounds while the receive buffer lets it; Settled
--              and Split are about the rounds, Reads about the pieces in which the bytes come, Traces
--              and Protocol about what is sent and when the tunnel opens, Config and Ready about the
--              settings.
-- Json         json.c and json.h. Strings is json_escape and json_parse_str, Parse and Value the
--              parser of values, which stores into a dictionary under the names of the path, and Keyed
--              gives it that of dict.c; Printed and Quoted have the theorems on strings, Number on
--              numbers, Shorter, Room and Total on the parser's end over any dictionary with room,
--              Returned on json2dict over that of dict.c.
-- Tests        runs of the definitions on concrete inputs, and the theorems applied to them.
--
-- How the code is read. A number is a natural number; unsigned arithmetic of dict.c keeps its 32-bit
-- wrap-around, and size_t of ringbuffer.c its 64-bit one. A C string is the list of its bytes without
-- the terminating zero. An out parameter is part of the result.
--
-- Dict: the outcomes of the allocations are arguments; the words that the hash loads are
-- little-endian; keys are compared by their bytes, so two pointers to one key are equal; NULL pointer
-- arguments are left out. Loops that stop only on what they find run on fuel: the lookup has
-- size + 8 rounds, and dict_lookup_total shows that they are enough while a never-used entry is
-- left: in seven rounds the 32 bits of the hash are shifted out, and from then on the slots 5 i + 1
-- visit the whole table. The growth of the size has 33 rounds, as sizes are at most 2^30 and double.
-- The getters assume LP64: long has 64 bits; a reader's none is the getter's default. The two
-- dictionaries of a merge or a difference are different objects; the loop over the source has one
-- round more than its table has slots, and each round passes a slot. Not modelled: dict_dump,
-- dict_get_exp, dict_type_name and the getters for char, float and double.
--
-- Acl: inet_pton is a parameter, a record of two functions; what POSIX says of the sizes of the
-- addresses is the hypothesis IsInet. The group callback includes its context.
--
-- Ring: nodes live in a store that maps addresses to nodes, malloc is an argument with the address that
-- it returns, and a use of an address that holds no node is the outcome fault; an exit of the
-- program is the outcome out_of_memory. Time is an argument and log lines are left out. The loops
-- over the nodes have as much fuel as the buffer counts nodes, and the theorems show it enough. The
-- buffer and its name are not in the store, so the last two frees of rb_destroy are left out.
--
-- Text: of util.string.c, split_args, parse_bool and hash_to_hex are not modelled. The fuel of
-- unescape_html is the length of its string, of which each round reads a byte at least.
--
-- LogQueue: the operations run one after the other, as the lock makes them; whether a push finds the
-- lock taken is an argument. The records that a drain hands to the log are its result. The readers
-- of the counters are not modelled.
--
-- Socks: inet_pton and whether mg_send queues its bytes are parameters. A call of rr_socks_event
-- has four rounds of fuel, since each round but the last moves on in the four stages.
--
-- Json: strtod is a parameter, and the allocations of the parser succeed. The parser of a text has twice its length and one as fuel, since a
-- value is read by two calls at most before a byte of it is. The printer, json_insert,
-- dict2json and dump_json are not modelled.
--
-- Not modelled: event-bus.c, config.c, list.c, scheduler.c, eeprom.c, maidenhead.c and
-- the other util files; the terminal interface, processes and I/O, which are
-- mostly calls of the system; and termkey.c with its drivers, a copy of another library.
mod Prelude
pub mod Dict
pub mod Acl
pub mod Ring
pub mod Irc
pub mod Text
pub mod Json
pub mod LogQueue
pub mod Socks
mod Tests
