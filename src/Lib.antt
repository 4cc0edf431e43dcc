-- ===== src/Lib.antt =====
-- Honeynet node: a verification library for the sensor program (Go, node/).
--
-- A sensor offers decoy services (SSH, telnet, RDP, web) to attackers, runs an emulated shell for
-- those who log in, records what they do, and spools the events until the collector has taken
-- them. The listeners parse bytes that an attacker chose, so a parser must not panic, must bound
-- what it records, and must read what a well-formed client sends. The telnet and SSH listeners ask
-- the credential policy whether a login is accepted and hand the connection to the shell, whose
-- line parser cuts each line into commands; every event goes through the spool.
--
-- The parts and their files:
--   * Base: what the node uses of Go itself. Base/Tests has Boolean tests and computations that
--     may panic; Base/Lists has slices; Base/Text has byte strings; Base/Utf8 and Base/Space have
--     UTF-8 and white space; Base/Split cuts and joins at a separator; Base/Dict has maps, Base/Set
--     the update of a place of a slice, and Base/Sort sorting; Base/Order has the order by which
--     loops end.
--   * Rdp (node/internal/protocols/rdp/parse.go): parse_connection_request is
--     parseConnectionRequest, parse_client_info is parseClientInfo, and the helpers keep their
--     names. Rdp/Clean, Rdp/Request, Rdp/Info and Rdp/RoundTrip hold the proofs.
--   * Shell/Parser (node/internal/shell/parser.go): tokenize is tokenize, as a scan by modes, and
--     parse is Parse, whose closures are functions on the state of its variables. The children
--     Quoting, Words, Shape, Escapes and Redirected hold the proofs.
--   * Shell/Urls (node/internal/shell/parser.go): extract_urls is ExtractURLs and url_candidates is
--     urlCandidates. The children Found, Ends and Extract hold the proofs.
--   * Shell/Session (node/internal/shell/shell.go): the state of a session, its output, and
--     read_line as readLine. Shell/Session/Output, Typed and Kept hold the proofs. Shell/Login has New.
--   * Shell/Evaluate (node/internal/shell/shell.go, and the dispatch of commands.go): exec_line,
--     with runPipeline and runStage. Shell/Loop (node/internal/shell/shell.go): observe, run_exec
--     and run_interactive. Shell/Evaluate/Kept, Stored and Redirected,
--     and Shell/Loop/Told and Counted hold the proofs.
--   * Shell/Commands (node/internal/shell/commands.go): a handler cmd_x is cmdX, and a step of
--     one, such as rm_one, the body of its loop over the operands. Files and Moves have the
--     commands on files, Fetch those that would download, State those on the session, Echo echo
--     with its escapes and variables, Lines and Search those on text, Fixed those with constant
--     answers, and Nested those that run another command. Table has the dispatch table,
--     builtins. A Kept module shows what the commands of its parent keep, by the condition of
--     Shell/Commands/Sound; Echo/Captured reads a payload in hexadecimal, and Table/Sound, Ended
--     and Dropped hold the proofs on the whole.
--   * Telnet (node/internal/protocols/telnet/server.go): read is telnetConn.Read, a step for each
--     byte; read_line is telnetConn.readLine; Telnet/Login has authenticate; Telnet/Sessions has
--     acquire and release as steps of sessions in any order. Telnet/Strip and Telnet/Lines hold
--     the proofs on Read and readLine.
--   * Credentials (node/internal/credentials): new_policy, derive_password and accept of
--     policy.go, accounts_from of secret.go; Credentials/Secret has LoadOrCreateSecret, and
--     Credentials/Wordlist the tables of wordlist.go. Credentials/Policy and Credentials/Accounts
--     hold the proofs.
--   * Ssh/Hello (node/internal/protocols/sshd/kexsniff.go): capture is sniffConn.Read and
--     parse_hello is parseHello. The children Names, Packet, RoundTrip, Total and Capture hold the
--     proofs.
--   * Spool (node/internal/spool/spool.go): next_seq, append, peek, ack and depth. Spool/Keys has
--     the order of the keys, Spool/Queue the promises of the database and the abstract queue, and
--     Spool/Append, Spool/Delivery and Spool/Eviction the proofs.
--   * Recorder (node/internal/session/recorder.go): call is the methods of Recorder, each a case;
--     Recorder/Classify has splitURL and detectType, and Recorder/Told the proof on the envelopes.
--   * Vfs (node/internal/vfs/vfs.go): the nodes of the tree are places of a list, and lookup,
--     stat, read_file and read_dir read it; Vfs/Paths has Clean and split with Go's functions on
--     paths, Vfs/Writes the operations that change the tree, and Vfs/Attacker AttackerFiles.
--     Vfs/Valid has the invariant, Vfs/Changes what a write to one node keeps of it, Vfs/Descend
--     the descent by names; Vfs/Writes/Kept, Moved, Made and Calls hold the proofs on each
--     operation, Vfs/Writes/ReadBack those on content, and Vfs/Paths/Canonical and Parents those
--     on paths.
-- Each Tests module has runs of the code and each theorem at a concrete input.
--
-- Conventions. A string is its list of bytes, and `range` over it gives the runes of Base/Utf8. An
-- index or a slice out of range is `none` of Option, which stands for the panic. A number of 32 or
-- 64 bits that can wrap has its `% 2 ^ w` written out. A mutex makes a method one step. Bytes that
-- a connection delivers are a list of arrivals, each with the note whether the buffer is drained
-- behind it; a list at its end is a read that fails. The reads of a shell session come with the
-- time each took, and in Vfs a panic is a case of Result. The contents of a file are a value: that
-- Go's append may write to an array which another file shares is not modelled. The counter of
-- dropped records of the spool is unbounded, where the code's wraps at 2^64.
--
-- Fuel. readLine has as much fuel as there are bytes left, and one more: each round reads a
-- byte or ends. authenticate has one unit for each allowed attempt. The banner loop of
-- parseHello has one unit more than there are bytes, as each line takes two at least, the
-- eviction loop of the spool one more than there are records, and the loop of urlCandidates one
-- more than there are bytes, as each round goes past a scheme. The theorems on these functions
-- show that the fuel is enough. lookup has 17 levels of links, as in the code; the walk of
-- AttackerFiles has a level for each directory on its way, and the theorem shows when these are
-- enough. The loop of RunInteractive has a round for each read and one more, as each round
-- reads at least once. A command that runs another one looks it up one level deeper in
-- Shell/Commands/Table; the theorem there shows that a level for each word is enough. itoa runs
-- on the accessibility of its argument.
--
-- Parameters, for code that is not in the repository: HMAC-SHA256, SHA-256, MD5, math/rand and
-- the case tables of Go (Credentials.Primitives, the digests of Recorder, and to_lower), the
-- file system under the secret (Credentials/Secret), the database bbolt and protobuf's
-- marshalling (Spool.Bolt, with the promises Spool.Queue.IsBolt). Shell/Evaluate and Shell/Loop
-- take the table of commands as a parameter, with the promise Shell.Evaluate.Kept.IsTable,
-- which Shell/Commands/Table keeps; there the commands that are not modelled are a parameter.
-- The greeting's text and time are parameters of write_motd.
--
-- Not modelled: socket handling, deadlines and logging of the listeners; the first content of the
-- virtual file system (New); the commands of the shell whose answers print times, owners or the
-- personality, and wget, dd, cut, tr, sed, seq, xxd, find, sleep, the services, the hashes and the
-- package lists; the web decoys; the personality tables; configuration and transport; the collector
-- (Rust), the ML pipeline (Python) and the dashboard (TypeScript); third_party/, which is a copy of
-- another project's library.
pub mod Base
pub mod Rdp
pub mod Recorder
pub mod Shell
pub mod Telnet
pub mod Credentials
pub mod Ssh
pub mod Spool
pub mod Vfs
