-- ===== src/Lib.antt =====
-- The local Petlibro camera client of addon/go2rtc/pkg/petlibro: how it finds the camera, starts a
-- session, reassembles the camera's video from lossy datagrams, and what it tells the camera about
-- what has arrived.
--
-- The program. `discoverByUID` searches the network for the camera, `handshake` logs in, and
-- `bootstrap` sends the commands that start the stream. The camera then sends media fragments as UDP
-- datagrams, numbered by a 16-bit counter, and keeps each one for a resend until a report
-- acknowledges it. The client's reader hands datagrams to one processor goroutine, `recvLoop`.
-- `parseDatagram` decodes each, extends its position to 64 bits, records its receipt, and buffers it;
-- `drainContiguous` and, on a timer, `forceDrain` hand fragments in order to `emit`, which joins them
-- to access units and queues these as packets. The maintenance goroutine turns the receive state into
-- reports. A producer probes the queue for its codecs and passes the packets on.
--
-- The files, with paths below addon/go2rtc/pkg/petlibro:
--   Prelude: names and helpers that all share, and the machine words of Go (`add64` and the like
--     write the wrap out).
--   Stats: `counters` and `countersSnapshot` of client.go, and in Stats/Dump `dumpStats` of recv.go.
--   Ack: recv.go. Ack/Ranges is `insertACKSeenLocked`, Ack/Receive `markACKReceived` with the fields
--     that `ackMu` guards as the record Ack, Ack/Window the reports, Ack/Reliable the control
--     messages. Ack/Window/Session puts receipts, reports, the network and the camera's resend queue
--     side by side as steps.
--   Seq: `wrapSeq` of assembler.go.
--   Wire: templates.go. A buffer is a list of bytes; `make`, `copy` and PutUint write as in Go.
--     Wire/Frames/Login is the login pair.
--   Media: the decoders of assembler.go: Media/Extended, Media/Normal, Media/Trailer, Media/Control.
--   Assembler: the rest of assembler.go. Assembler/Channel holds the state of one channel,
--     Assembler/AnnexB the search for NAL units, Assembler/Stream the state that `emit` works on,
--     Assembler/Output `emitAU`, Assembler/Release `flushPendingIDR`, Assembler/Emit `emit`,
--     Assembler/Buffer the reorder buffer with `drainContiguous` and `forceDrain`, Assembler/Datagram
--     `parseDatagram`, and Assembler/Counts the counters that they raise. Assembler/Delivery
--     abstracts from the buffer to what is fed to `emit`.
--   Session: how a session starts and runs. Session/Query is the URL parameters that `Dial` of
--     client.go reads, Session/Fresh the client that `Dial` makes, Session/Dial `Dial`,
--     Session/Send `send` and `sendInner`, Session/Commands `bootstrapIOCtrls`, Session/Bootstrap
--     `bootstrap`, Session/Handshake `handshake` and `recvOne`, Session/Loop `recvLoop`,
--     `readerGoroutine` and `Close`, Session/Maintenance `maintenanceLoop`, and Session/System
--     these as interleaved steps, which Session/System/Refine relates to Ack/Window/Session.
--   Discovery: discovery.go. The decisions on responses and subnets; Discovery/Plan the plan of
--     addresses and the failure codes, Discovery/Options the option checks, Discovery/Counters the
--     counters, Discovery/Receive the reader, Discovery/Search the stages, and Discovery/Resolve
--     `resolveWithPlan` with `ResolveUIDContext` and `discoverByUID`.
--   Status: runtime_status.go, the mutations of the state.
--   Producer: producer.go, the AVCC walk and the choices of `probe`; Producer/Playback is `Start` and
--     `NewProducer`.
--   Tests: the theorems at concrete inputs.
--
-- How code becomes definitions. A Go function on `Client` is a function on the record of the fields
-- that it uses; a pointer into the client (`asm`) is read and put back by channel. A map is the list
-- of its keys or entries, the reorder buffer in rising key order, which is the order that
-- `slices.Sort` gives its keys. Clock readings, what a `select` picks, what arrives before a deadline,
-- and whether a send succeeded, are arguments or fields of an environment; the search asks its
-- environment at each step of a clock. A function that returns an error returns `Attempt` or a result
-- type of its own. The channel `frames` is the list of what waits in it, at most 1024 packets. Log
-- lines are left out; state that only logging reads is kept where it is part of `Client`.
--
-- Fuel. `drain_from` has as many rounds as there are buffered entries, and each round takes one away;
-- `drain_reliable` likewise for waiting messages; `scan` has the number of positions up to the
-- window's end; the AVCC walk has the buffer's length; `broadcast_rounds` and `try_producer` have the
-- code's own bound of three. The endless loops run over the list of what happens to them.
--
-- Not modelled: sockets and files, JSON, the time stamps of log lines, and the go2rtc server around
-- the client. `h264.DecodeSPS` is recorded as a call. The transcoding of pkg/tutk, which copies
-- another library, and the calls of pkg/aac and pkg/h264/annexb are parameters. `url.Parse` and
-- `net.ResolveUDPAddr` are taken as done.
pub mod Prelude
pub mod Stats
pub mod Ack
pub mod Seq
pub mod Wire
pub mod Media
pub mod Assembler
pub mod Discovery
pub mod Status
pub mod Session
pub mod Producer
pub mod Tests
