-- ===== src/Lib.antt =====
-- mysql-replay reads the MySQL sessions of a packet capture, turns their packets into events, writes the
-- events as lines of text, and replays them against a database.
--
-- The parts, and the files that model them:
--   - event/event.go, the events and their text format: Event. `AppendEvent` is append_event, `ScanEvent` is
--     scan_event, `AppendStmtParams` and `ScanStmtParams` are append_stmt_params and scan_stmt_params,
--     `nextSep` is next_sep. A text is a list of bytes, a position a number, and a slice out of range a
--     panic, which is an outcome of its own (Base/Result).
--   - stats/counter.go, the counters: Stats. `Add`, `Get`, `Dump`, `SetLagging` and `GetLagging` are add, get,
--     dump, set_lagging and get_lagging, functions on the record of the counters; the code makes each of
--     them atomic. A counter is its bit pattern, below 2 ^ 64.
--   - stream/mysql.go, the state machine of a session: Stream/Fsm, with its record in Fsm/Machine, the
--     handshake in Fsm/Handshake, the helpers that read numbers in Stream/Reader and the values of a
--     statement's parameters in Stream/Params. `Handle` is handle; a panic that nothing recovers is
--     none, one that `parseExecParams` recovers is an error. The argument spare of these functions is what
--     stands in the data buffer behind its contents: a slice may reach into it.
--   - stream/event.go, the handler that gives the events: Stream/Events. `OnPacket` is on_packet; the
--     events it gave are a list. Stream/Events/Feed feeds it the packets of a session.
--   - stream/stream.go, the stream that cuts the bytes of a connection into packets: Stream/Reassembly.
--     `ReassembledSG` is reassembled_sg, its loop is drain_loop, and drain the state that the loop
--     leaves. A segment is what the assembler of gopacket gives. The packets that go to the handler, at
--     once or through the channel, are the list sent, in the order of the handler's calls; Reassembly/Runs has the segments of a connection.
--   - cmd/text.go, the dump of a connection: Dump. `textDumpHandler` is TextDumpHandler, its `OnEvent` and
--     `OnClose` are on_event and on_close; Dump/Lines has the file and its replay.
--   - cmd/text.go, the replay of a file: Play. `playWorker` is Worker with an operation for each method in
--     Play/Worker, and `start` is start in Play/Session. The database behind database/sql is a parameter
--     (Play/Driver): it answers a request by all that was asked before, so that its errors and timeouts
--     may come anywhere. The clock and the context are a parameter too (Occasion). Play/Spec is what a
--     replay is to run by its events, Play/Refinement relates the two, and Play/Invariant is the worker's.
--   - stream/stream.go, the names of connections: Stream/ConnId. `ConnID.Hash` is hash; a flow of gopacket is
--     a parameter.
--   - stream/packet.go, the handler that replays a connection while it is read: Live. `replayHandler` is
--     ReplayHandler, its `OnPacket` is on_replay_packet. The database is asked as in Play/Driver; the regular
--     expressions are a parameter (Compile).
--   - core/store.go, the tasks of the workers: Store. `Call` is call; its two sections under the lock are claim
--     and release, which other workers may come between. The answers of SQL are parameters.
--   - core/server.go, the server of the workers: Server has the set of channels with a worker and the pauses of
--     `startWorker`.
--   - stream/const.go: the constants in Stream/Packet and Stream/Params/FieldType.
--
-- Strconv models what these parts use of Go's strconv, unicode/utf8 and encoding/hex. The table of
-- printable runes, text in other quotation marks than the double one, and the print of floats, whose values
-- are their bit patterns, are parameters (Strconv/Library). Base has the shared names and lemmas.
--
-- `bufio.Scanner` gives the lines of a file; it is a parameter, as a list of lines. The packets' owner, the
-- connection, names log files only and is left out, as the log lines are. A blob
-- that `parseExecParams` returns shares the data buffer in the code; here it is a copy, since the handler
-- gives its event away before the buffer is written again.
--
-- Fuel: the loops of `load` take the number of packets as fuel, since each round takes a packet at least; the
-- loop of `ReassembledSG` takes one more than the number of bytes, since each round that goes on takes four
-- at least, and to run out of fuel is an outcome of its own; the digits of a number and the loop of
-- `Unquote` take fuel by the number and the text. The theorems on these functions state that they find
-- their result.
--
-- Not modelled: the assembler of TCP segments, which is gopacket's, the choice of the files to replay and the
-- replay on agents (cmd/text.go, cmd/text_agent.go), the download of a task's data (core/store.go), the
-- replay of a capture file with its filter (core/server.go), and the command line (cmd, main.go), which are
-- input and output around the parts above.
pub mod Base
pub mod Strconv
pub mod Event
pub mod Stats
pub mod Stream
pub mod Play
pub mod Dump
pub mod Live
pub mod Store
pub mod Server
