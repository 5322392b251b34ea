-- ===== src/Lib.antt =====
-- nohands: a Bluetooth hands-free (HFP) implementation, libhfp, with a daemon and front ends. This
-- library models the part of libhfp that speaks with the audio gateway (AG), which is a cell phone:
-- the session of libhfp/hfp.cpp, from the bytes that it reads to the callbacks of its client, its
-- connection and the event loop below it; and beside them the packet queue of the sound I/O and the
-- settings of the daemon.
--
-- An HfpSession keeps a connection state, a queue of AT commands of which the first is under way, the
-- indicators and features of the AG, and the state of the call that is being set up. `HfpDataReady`
-- reads bytes, `HfpConsume` finds the lines in them; a line goes to the command under way
-- (`iResponse`), then to `ResponseDefault`, which acts on what the AG sends by itself; calls,
-- callsetup values and the caller's identification meet in `UpdateCallSetup`. Any part may end in
-- `__Disconnect`, which empties the queue.
--
-- Below it, an RfcommSession looks up a channel, connects or is connected, and is disconnected; its
-- RfcommService keeps the sessions that are to be connected again. All run in the handlers of one
-- event loop, IndepEventDispatcher, which calls them for its timers and sockets.
--
-- The files, with what they model:
--   Text, Text/Strtol, Text/Decimal, Text/Lines: C strings as lists of bytes, IsWS and IsNL, line ends,
--     and what the code calls of the C library: strtol in the C locale for a 64-bit long, printf of %d.
--   Gsm, Gsm/Fields: ParseGsmStringField, ParseGsmIntField, the parsers of GsmClipResult,
--     GsmCnumResult, GsmCopsResult and GsmClccResult, and GsmClipResult::Compare.
--   CallSetup: ClearClip, UpdateCallSetup, Timeout and ClipTimeout, on the record Call.
--   Session, Session/Disconnect: the record HfpSession, __Disconnect, NotifyConnectionState without a
--     channel.
--   Session/Commands: the queue: SendCommand, StartCommand, AddCommand, DeleteFirstCommand,
--     PendingCommand, CancelCommand. Session/Replies: the classes derived from AtCommand, which are
--     the constructors of Command. Session/Hold, Session/Indicators: the answers to AT+CHLD=? and
--     AT+CIND. Session/Unsolicited: ResponseDefault. Session/Lines: a line in HfpConsume, the
--     handshake, NotifyConnectionState with a channel. Session/Reader: HfpDataReady and HfpConsume.
--     Session/Client: the Cmd... methods.
--   Config: ConfigFile of hfpd/configfile.cpp, the settings of the daemon. Config/Parse: ParseLine.
--     Config/Read: ExtractLineLoop, ReadLoop and Load. Config/Save: Save. Config/Iterate: First,
--     FirstInSection and Next.
--   Sound/Packets: PacketSeq of include/libhfp/soundio-buf.h, the packet queue of the sound I/O.
--   Events/Timers: the timers of libhfp/events-indep.cpp, a pairing heap. Events/Dispatch: its Set,
--     Cancel and SetEnabled, and RunTimers. Events/RunOnce: RunOnce and Run.
--   Rfcomm: the records of libhfp/rfcomm.cpp. Rfcomm/Reconnect: the lists of RfcommService.
--     Rfcomm/Connect: RfcommConnect to a channel, RfcommConnectNotify, __Disconnect, and what
--     NotifyConnectionState of HfpSession adds. Rfcomm/Requests: RfcommConnect with a lookup,
--     RfcommSdpLookupChannelComplete, RfcommAccept, RfcommOperationTimeout, SetAutoReconnect,
--     AutoReconnectTimeout, and Connect and AutoReconnect of HfpSession. Rfcomm/Serve: all of them as
--     steps of a service.
--   Faults: the results and faults that all of them share.
-- The other files hold proofs: CallSetup/Invariant to CallSetup/Ring, Faults/Post, Session/Invariant to
-- Session/SafeLines (no assertion fails), Session/Owed to Session/LinesOnce (callbacks of pending
-- commands), Session/Dangling (runs that end badly), Session/Values, Session/Framing, Gsm/Quoted,
-- Gsm/Compare, and those of Config, Sound, Events and Rfcomm; Tests holds examples.
--
-- How the code is rendered. A method takes the session and gives it back in a Result; a failed
-- assert, a call through a null pointer, the use of a deleted object and a loop out of fuel are its
-- faults. Callbacks and lines sent are recorded as events, the newest first; the callbacks are taken to
-- be registered and not to call the session back, but for that of a pending command that its caller
-- has not got yet: it is a null pointer. A pending command is a number. What the system
-- answers is in the state or an argument: memory_left (the next allocation of a copy), socket_open (the
-- next send takes the whole line), and what read returns. Numbers are native; an int that strtol
-- delivers is wrapped to 32 bits by to_int.
--
-- Loops: the rounds of data_loop are an argument of hfp_data_ready, and as many as there are bytes in
-- the buffer are enough; consume has fuel, one more than the bytes in the buffer, read_file two more
-- than the bytes of the file, and cind_values one more than the bytes of the line; each round uses up a
-- byte at least, but for the last of read_file. First has fuel too, since it may not end. The loop of
-- RunTimers over the heap has one more than its timers; those over a run list and over the sessions to
-- connect again have the length of the list, which only shrinks. A run out of fuel is a fault. All
-- others are structural.
--
-- The two models of a session, Session and Rfcomm, share m_conn_state: Rfcomm has all sessions of a
-- service and knows of the handshake only whether it could begin, Session has one and all of its
-- commands. Handlers of the event loop are lists of what they do to its timers and sockets; the clock,
-- select and the answers of the Bluetooth stack are arguments.
--
-- Not modelled: logging; ErrorInfo, and the assertions that one is set where a connection has failed; locks and the pipe that wakes the loop, which threads use; the SCO audio link
-- and the rest of the sound I/O; Bluetooth, SDP and socket calls but for their answers, the listening
-- socket and its security mode; allocation failures of commands; the daemon, but for its settings, its
-- D-Bus interface and the front ends.
pub mod Prelude
pub mod Text
pub mod Faults
pub mod Gsm
pub mod CallSetup
pub mod Session
pub mod Config
pub mod Sound
pub mod Events
pub mod Rfcomm
pub mod Tests
