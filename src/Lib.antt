-- ===== src/Lib.antt =====
-- A verification library for Cyrenus, an XDP firewall with a management server.
--
-- The program has two halves. The packet filter, ebpf/xdp_prog.c, runs in the kernel once for each
-- frame: it counts the frame, checks its fragments, the country of its source, the tokens of the
-- source and the floods of its protocol, applies the firewall rules and accounts for the flow. The
-- server, src/http_server.c with the handlers of src/api, runs in user space: it checks who calls,
-- selects a handler, and the handlers change the maps that the filter reads (the rules, the blocked
-- countries, the thresholds) or the database of sessions and keys. The files of
-- Api work on the state of Xdp, so that a handler and the filter meet in one map.
--
-- The files, and the code that they model:
-- - Prelude: the shared names. Prelude.Tests has the Boolean tests, Prelude.Lists and Prelude.Words
--   lists and machine words, Prelude.Strings the calls of the C library on strings, and
--   Prelude.Decimal numbers as printf and scanf treat them.
-- - Xdp.Types, Xdp.State: the structs of include/common.h and ebpf/xdp_prog.c, the maps as functions
--   of their lookups, and the kernel's clock.
-- - Xdp.Config, Xdp.Attack, Xdp.Flow, Xdp.Udp, Xdp.Dns, Xdp.Fragment, Xdp.Rules, Xdp.Syn,
--   Xdp.Bucket: one file for each check, with the names of its functions (get_config,
--   update_attack_info, is_established_flow, check_udp_flood, check_dns_amplification,
--   handle_fragment, apply_rule, check_geoip, check_syn_flood, early_filter).
-- - Xdp.Packet, Xdp.Account, Xdp.Prog: the reads of the headers, the accounting at the end, and
--   xdp_prog itself. A read past the end of the frame is the result `none`.
-- - Xdp.Clock and the children of the files above: runs of packets in time, and their theorems.
-- - Http.Types, Http.Upload, Http.Database, Http.Hash, Http.Guard, Http.Routes, Http.Dispatch:
--   handle_request of src/http_server.c, with the functions of src/database.c and src/api/keys.c
--   that it calls. A response is a `Reply`; a call of a handler is the reply `call`, with what the
--   handler is given.
-- - Http.Access, Http.Gate, Http.Endpoint, Http.Serve: who gets through, and what is served. Http.Run
--   lets the handlers of Api.Auth and Api.Keys run behind the call, and Http.Outcome says what a request
--   leaves of the database.
-- - Api.Json, Api.Maps: json-c, the system call bpf(2), and the responses.
-- - Api.Auth, Api.Rules, Api.Countries, Api.Settings, Api.Keys: the handlers of src/api/auth.c,
--   src/api/rules.c, src/api/geoip.c and src/api/keys.c that change state, and those of
--   src/api/system.c.
-- - Live: the live stream of src/websocket_server.c. Live.Steps has the states that it reaches, as runs
--   of its operations with the messages that were broadcast; Live.Order and Live.Delivery say what a
--   client is sent.
-- - Uplink: apply_global_block of src/saas_uplink.c, the rule that it writes and what it drops.
-- - Tetragon: the event monitor of src/tetragon_events.c. Tetragon.Classify, Tetragon.Parse,
--   Tetragon.Store and Tetragon.Process have its functions by their names, and Tetragon.Monitor a round
--   of its thread on the text that the log has behind the position; its alerts go to Live.
--   Tetragon.Words, Fits, Lines, Counters and Reach say what comes of a line.
-- - Startup: the configuration of the program. Startup.Args, Startup.Env and Startup.File have the
--   functions of src/runtime_config.c and load_config of src/config_handler.c, and Startup.Main the
--   order in which main of src/main.c calls them. Startup.Keeps, Fits, Valid, Port, Precedence and
--   Complete say what the program starts with.
-- - Walks: api_rules_list of src/api/rules.c and api_traffic_stats of src/api/traffic.c, which list the
--   hash maps of the filter in the order of their walk (Walks.Order).
-- - Attacks: get_attack_info of src/attack_info.c, which reads the log that Xdp.Attack writes.
-- - Security: src/api/security.c with create_response of src/api/api_helpers.c. Security.Policies has
--   the handlers of the policies and of the configuration, Security.Query the query for events, and
--   Security.Events the list of them with database_list_security_events of src/database.c.
-- - Database: the connection of src/database.c, the list of the keys (Database.Keys) and the IP lists
--   (Database.IpLists). The statements for sessions and keys are in Http.Database, those for the
--   security events in Tetragon.Store and Security.Events.
-- - Rates: monitor_thread of src/main.c, which reads the counters that Xdp.Prog writes and broadcasts
--   to Live.
--
-- State is passed on explicitly. Numbers are natural numbers, with the wrap-around of their words
-- written out (Prelude.Words); a number in network order is the number that the little-endian machine
-- reads, and `swap16` is htons. A string is the list of its bytes, without the end mark.
--
-- Parameters stand for code that is not in the repository, with hypotheses on it where a theorem
-- needs them:
-- - `Helpers`: the kernel's updates of the maps from the filter (`IsLruUpdate`, an update stores its
--   key and may evict others; `IsArrayUpdate`, an index within the array is stored).
-- - `Syscalls`: the updates and deletes from user space (`IsHash`).
-- - `Sqlite`: the statements of src/database.c at the values that are bound (`IsSessionTable`,
--   `IsKeyTable`).
-- - `JsonC`, inet_pton, rand, the digests of OpenSSL, uuid_generate, and time(NULL), whose readings are
--   given one by one (`Times`, `Fresh`).
-- - `EventSql` and inet_ntoa, for the security events; `JsonArrays`, the arrays of json-c.
-- - `LibConfig`, getenv and access, and what getopt_long reads of the arguments (`Argv`).
-- - `Os`, which file a path names (`IsLinkless`), which files can be written or removed and what a
--   command of the shell does; a file that exists can be read. `EventSelect`, the rows of a statement,
--   malloc, and what its memory holds.
-- - `Sqlite3`, what SQLite answers to the opening of a file and to a command. The statements for the IP
--   lists are written out on the rows of their table, by the meaning that SQL gives them.
-- - bpf_map_get_next_key on the log of attacks (`IsArrayWalk`) and on the hash maps (`IsHashWalk`), and
--   inet_ntop.
-- - realloc and calloc, by what they answer.
--
-- Bounds: the filter has no loop, so it needs no fuel. decimal_digits has
-- fuel for 20 digits, more than a number of 64 bits has. read_loop has fuel for every byte of the log,
-- as each fgets takes at least one, and attack_walk for each of the 1000 keys of the array.
-- rules_loop and traffic_loop have fuel for the 10240 keys that their maps have room for, and one call
-- more. The other functions recur on their lists.
--
-- Not modelled: other processors at work between two steps of the filter (a run is a sequence, and
-- an atomic addition is an addition); the recency that a lookup gives an entry of an LRU map;
-- bpf_printk and the log of the server; attack_type and padding of struct attack_info; the text of
-- the JSON that a response carries, but for its status, its fixed messages and the token; a body
-- that json-c is given as the null pointer is a case of `tokener_parse`. The daemon of microhttpd,
-- the service of libwebsockets, the start and stop of the event monitor, the loader
-- (src/bpf_loader.c), the threads and signals of main, src/api/attacks.c and the stubs of
-- src/api/iplists.c are outside of this library. A member of JSON is never null here, and a text of
-- the log, of an argument or of the environment has no byte 0. The second reading of a configuration
-- file finds what the first one found. A map does not change while it is walked.
pub mod Prelude
pub mod Xdp
pub mod Http
pub mod Api
pub mod Live
pub mod Uplink
pub mod Tetragon
pub mod Startup
pub mod Attacks
pub mod Rates
pub mod Security
pub mod Walks
pub mod Database
