-- ===== src/Lib.antt =====
-- telEgo for OpenWrt: the Go program in package/telego-pkg/src, which relays Telegram clients to
-- Telegram's servers. The paths below are relative to package/telego-pkg/src/pkg.
--
-- A client reaches the proxy over FakeTLS (transport/faketls) or over a web front end (webproxy). The
-- proxy (gproxy) decrypts the client's Obfuscated2 stream, whose packets transport/middleend takes
-- apart, and carries them to Telegram's middle-end in frames that are numbered and checksummed. On
-- the way back it frames the answers, encrypts them, and wraps them in TLS records whose sizes are
-- chosen to look like a browser's.
--
-- The model is executable: a method takes the state and returns the state that it leaves and its
-- result. An error is a constructor for each sentinel, without the text that wraps it. A slice of
-- bytes is a list of numbers, with a hypothesis that each is below 256 where it matters; fixed-width
-- integers keep their wrap-around. A loop of the source is a structural recursion, or one on a number
-- of rounds that the length of its input bounds, with theorems that the number is enough.
--
--   Base                  bytes, fixed-width integers, results, maps, lemmas on lists
--   WebProxy.Frame        webproxy/frame.go: the frames between a web client and the relay; type,
--                         stream and payload of every frame, batches, and who may send what
--   WebProxy.Limits       webproxy/session_config.go: limits, reserves and overflow tests
--   WebProxy.BoundedSet   the same file: boundedSet
--   WebProxy.StreamHistory
--                         webproxy/stream_history.go: the stream numbers that were ever used
--   WebProxy.Session      webproxy/session.go: the state of a carrier session. Its children: Pending
--                         (the budget, with changePendingBudget of webproxy/manager.go), Queue and
--                         Release (the frames of a lane), Streams (what a backend does), Checks and
--                         Batch (validateBatchLocked, backendWriteReservationLocked and
--                         applyBatchLocked), Carrier (processUp), Poll (pollCarrier) and Inputs (WebSocket
--                         input and lanes); Accounts is the invariant of all of them
--   MiddleEnd.Constants   transport/middleend/constants.go: sizes, operations, sentinels
--   MiddleEnd.Crc         hash/crc32 as published, with its check values
--   MiddleEnd.Handshake   transport/middleend/handshake.go: nonce, handshake and process identifiers
--   MiddleEnd.Frame       transport/middleend/frame.go: EncodeFrame and DecodeFrame
--   MiddleEnd.Encoder     the same file: FrameEncoder, its numbering and checksum transition
--   MiddleEnd.Decoder     the same file: FrameDecoder, its buffer, its no-op frames and its errors
--   MiddleEnd.ClientPacket
--                         transport/middleend/client_packet.go: the abridged, intermediate and
--                         padded-intermediate framings, both ways
--   FakeTls.Record        transport/faketls/record.go: TLS records
--   FakeTls.Sizer         transport/faketls/drs.go: DRSState, the sizes of the records
--   Gproxy.Writer         gproxy/middleend_frontend.go: writeWire, which uses both and a cipher
--   Gproxy.Budget         gproxy/middleend_budget.go: the byte budget that goroutines share, as the
--                         interleavings of its atomic operations
--
-- A session of webproxy calls WebProxy.Frame for the frames it reads and writes, its Pending budget
-- for each byte that it keeps, and WebProxy.StreamHistory and WebProxy.BoundedSet for the streams that
-- have been. Each operation of a session is one step under its mutex; processUp is two, with the
-- parser between them: begin_up, and then commit_up, finish_late or fail_up. An operation that would panic sets the flag `panicked`. A session is called
-- balanced with some bytes and items held when the flag is clear; what is pending is the cost of the
-- queued and unacknowledged frames of its lanes and of the writes of its streams, and what is held;
-- the manager's counters cover that; no lane and no stream is there twice; every entry of
-- pendingWindows is the index of a WINDOW frame; every client window and what waits for the backend
-- make 4 MiB; and queued frames are not empty. Held is what is reserved and not queued.
--
-- Rounds: FrameDecoder.Next drops a four-byte no-op each round and is given one round for each
-- buffered byte; the loops that cut a payload into records take at least one byte each round and are
-- given one for each byte, which the theorems on what they deliver rest on.
--
-- The cipher of writeWire is a parameter with the documented laws of a stream cipher. The sources of
-- random bytes and the readers are lists of the bytes that they will yield. Not modelled: the pools
-- and capacities of buffers, clearing of memory, logging and metrics, the event loops and goroutines,
-- DNS, sockets and HTTP serving, configuration, and the state machine of
-- transport/middleend/binding_manager.go. Of webproxy/session.go the claims of concurrent polls and
-- the goroutines of a backend are not modelled. acquireStream of the manager is a function from stream numbers to answers, and
-- SHA-256 a function on bytes, of which nothing is assumed.
pub mod Base
pub mod WebProxy
pub mod MiddleEnd
pub mod FakeTls
pub mod Gproxy
