-- ===== src/Lib.antt =====
-- A model of the SKA-Low station beam simulator: the Go program that generates the channelised
-- samples of a station, packs them into SPEAD heaps and sends them as UDP datagrams.
--
-- How the parts interact: a scan runner asks a streamer for the samples of a tick, has them written
-- into the heap accumulator, pops the ready heaps and sends them to a sharded queue. For each shard
-- one goroutine takes heaps from the queue in batches, and the packetizer encodes each of them into
-- a reused wire buffer. The capture writer puts such datagrams into a file.
--
-- Which file models which part:
-- * Prelude, Prelude/*: lists and tests over the native numbers, signed numbers, words and shifts.
-- * Float, Float/Ops: the operations on float64 and float32, as a record that the model takes as a
--   parameter. Float/Fixed: a decimal arithmetic for tests.
-- * Common/Constants, Common/Time, Common/Heap: internal/common/constants.go, tai2000.go,
--   station.go.
-- * Common/Queue, Common/Queue/*: internal/common/heap_queue.go. A Go channel is the list of its
--   buffered items. The goroutines are steps of a relation, in any order.
-- * Common/Channels, Common/Accumulator and their children: internal/common/heap_accumulator.go
--   (forEachChannelRange, PrepareWrite, Add, PopReadyHeaps). A buffer is a backing array and a
--   length; a buffer from the pool is an argument of unknown content.
-- * Common/Delay and its child: internal/common/delay.go.
-- * Common/ScanRunner and its children: the loop of internal/common/scan_runner.go. The clock and
--   the stop channel are arguments.
-- * Binary, the byte orders: encoding/binary of the Go library.
-- * Spead/Wire, Spead/Payload, Spead/Packetizer and their children: internal/spead/packetizer.go.
-- * Spead/SendLoop, Spead/SendLoop/Batches: internal/spead/sendloop.go. Spead/Sender and its
--   children: internal/spead/sender.go.
-- * Pcap and its children: internal/pcap/writer.go.
-- * Synth/Noise and its children: internal/synth/noise.go. The normal variates are an argument.
-- * Synth/Tone, the tones: internal/synth/tone.go. Synth/Config, Synth/Positions, Synth/Streamer
--   and their children: the construction in internal/synth/streamer.go. Synth/Ticks,
--   Synth/Quantized and their children: GenerateNextTick and GenerateQuantizedHeaps. Synth/Memory:
--   the sizes of the banks.
-- * Common/Control, the hold on a scan: Start, Stop and IsRunning of
--   internal/common/scan_runner.go.
-- * Server and its children: internal/server/grpc_server.go and the messages of
--   api/simulator.proto. A handler is a function from the state of the server to the next;
--   Server/Scans has the relation of its steps. Server/Starting and its children: Start and
--   WatchStatus. The feeds are a store with addresses, shared by the server and the streamer.
-- * Common/Pools, Common/Pools/Sizes: the two sync.Pools of internal/common/heap_accumulator.go.
--   Which buffer a Get hands out is an argument.
-- * Netutil, Netutil/First: internal/netutil/interface.go.
-- * Cmd/Exit, how a program ends. Cmd/PcapDump and its children: cmd/pcap-dump/main.go after the
--   parsing of its flags. Cmd/NoiseStream and its child: cmd/noise-stream/main.go up to the start
--   of the scan.
-- * Tests, Tests/*: runs at concrete inputs.
--
-- A function that can panic returns an Option whose none is the panic. Numbers are unbounded
-- natural numbers, or integers where the program uses signed ones; conversions to w bits are
-- written as remainders by 2 ^ w. Lengths and counts of the program are far below 2 ^ 63, so the
-- overflow of int is not modelled.
--
-- Fuel: PopReadyHeaps runs on the rows divided by 2048, since each round takes 2048 rows;
-- BatchSendLoop on the number of heaps, since each round takes one; the ranges of
-- forEachChannelRange on the number of channels, since each range holds one; the carries of the
-- Internet checksum on two rounds, enough for 32 bits.
--
-- Not modelled: logging, the sockets of the system, the generated gRPC code, the parsing of flags,
-- the program cmd/server, which only puts the parts together, the end of noise-stream, the Tango
-- device server and the charts.
pub mod Prelude
pub mod Float
pub mod Common
pub mod Binary
pub mod Netutil
pub mod Spead
pub mod Pcap
pub mod Synth
pub mod Server
pub mod Cmd
pub mod Tests
