-- ===== src/Lib.antt =====
-- A model of smbanything, a read-only SMB 2.1 server that presents files and archives as a share.
--
-- The program. smbanything_core/src/smb holds the protocol. A message arrives framed (wire.rs), its
-- header is read (proto.rs) and, on a signed session, its signature is verified (sign.rs). The
-- dispatcher (mod.rs) hands each request of a compound to a handler: session.rs for the connection,
-- its logon (ntlm.rs) and its trees, files.rs for the files, srvsvc.rs for the pipe that lists the
-- share. A file command resolves a path (path.rs) against a backing (backing.rs), keeps an open
-- handle in the connection's table, and encodes what the client asked for (info.rs). When the
-- contents of the share are replaced, a registry that all connections share invalidates every open
-- file.
--
-- The files. Each models the source file it names:
--   * Wire: smbanything_core/src/smb/wire.rs. Nbss is the framing header; Reader and Writer are the
--     cursor and the buffer, methods taking them first or last and returning them; Utf16 and Der the
--     two encodings.
--   * Proto: proto.rs. Status, Cmd, Flags and Access hold the constants of the modules of those
--     names; Header the header, its parser and writer, and `to_filetime`.
--   * Path: path.rs. `parse`, the renderings, and `file_id`.
--   * Sign: sign.rs. `pdu_extents`, `sign` and `verify`.
--   * Backing: backing.rs. The two traits are records of functions.
--   * Info: info.rs. File and Volume are the fixed classes, Directory the page of QUERY_DIRECTORY.
--   * Files: files.rs. State is the state, Handles the methods of `Handles` and `OpenRegistry`;
--     Create, Close, Read, QueryDirectory and QueryInfo are the commands, Request what they read
--     from a request's body, FileId the ids and create contexts, Glob the matcher of search patterns.
--   * Session: session.rs. State is `SessionState`, Negotiate the NEGOTIATE command and the answer
--     to SMB1, Spnego the tokens of a logon, Setup the SESSION_SETUP command, Trees TREE_CONNECT, and
--     Requests what the last two read.
--   * Ntlm: ntlm.rs. `parse` and `is_anonymous` are the methods of `Authenticate`; Flags its flags.
--   * Pipe: srvsvc.rs. The commands have the pipe as their state; Requests is what they read, Rpc
--     the DCE/RPC messages, Share the NetrShareEnum call, Constants the constants of the two.
--   * Server: mod.rs. State is `Conn`, beside what its `Ctx` shares; Commands the arms of
--     `Conn::execute` with `file_command` and `ipc_command`, Execute the dispatch itself, Message
--     `Conn::handle_message`, Serve a round of `serve_connection`. The rest of it is about these.
--   * Contents: src/root.rs (Root) and src/archive.rs. Index is the map of an archive's paths, sorted
--     as a `BTreeMap` has them, Archive the methods of `ArchiveIndex` on it; Coherent is the contract
--     of `Backing`.
--   * Base is what these share: results, a monad of handlers that keep their state on an error,
--     bytes, text and Boolean tests. Platform is the code outside the repository.
--
-- How it is modelled. A byte and a code point are numbers, a byte string and a text are lists of
-- them. A number of w bits keeps its wrap-around or saturation where the source has it. A handler
-- takes the state and returns a result with the state after it, also on an error. An `Arc` of an
-- open state is an address in a store that all connections share; the registry holds addresses, and
-- a state leaves the store when its handle is dropped. A request runs as one step, so a replacement
-- of the contents and the requests of other connections come before it or after it, never within;
-- Server/Reach has them as steps of their own, and `handle_message` has none between two requests of
-- a message. The clock and the random numbers that a request takes are arguments, by the request's
-- place in its message. A panic is `none`, or a constructor, where one could occur.
--
-- Fuel. `extents_loop` of Sign and `context_loop` of Files/FileId walk chains of offsets on fuel, the
-- length of the buffer: each round moves on by at least 16 bytes. `align_loop` of Wire/Writer has
-- the alignment as fuel, `message_loop` of Server/Message the length of the message, of which each
-- round takes a header at least. Every other loop is structural; the budget of `glob_match` is the source's.
--
-- Not modelled: the archive formats and the text of the README; the terminal interface, the network
-- device, the sockets with their timeouts, and the start and stop of a server, which are input and
-- output; functions that only feed the log. Hash functions, the cipher, the Unicode tables and the
-- growth of a vector are parameters.
pub mod Base
pub mod Wire
pub mod Proto
pub mod Path
pub mod Sign
pub mod Platform
pub mod Backing
pub mod Info
pub mod Files
pub mod Ntlm
pub mod Pipe
pub mod Contents
pub mod Server
pub mod Session
