-- ===== src/Lib.antt =====
-- A model of the AWDL stack of esp-owl, which lets an ESP32 take part in the Apple Wireless
-- Direct Link: nodes elect a master, follow its clock, announce themselves in action frames, and
-- exchange IPv6 packets in data frames. The code is C, under main/.
--
-- The parts, with the file of the source each models:
--
-- Wire (main/owl/wire.c) is a window on a byte array. A buffer is the array, the offset of the
-- window and its length; a read or write takes an integer offset and returns nothing, or -1, when
-- it is out of bounds. Wire.View has the window as a list of bytes, which is the specification of
-- every read and write, Wire.RoundTrip the writes, Wire.Tlvs the TLVs.
--
-- Ethernet (main/owl/ethernet.h) has the addresses, Channel (main/owl/channel.c) the channels,
-- Version (main/owl/version.c) the version byte, Frame (main/owl/frame.h) the constants of the
-- frames, Crc32 (main/owl/crc32.c) the checksum.
--
-- State (main/owl/state.c) has the state of a node, Peers (main/owl/peers.c) what it knows of
-- another. Peers.Table has the functions on the table of peers over the interface PeerMap: the
-- operations on the map with the laws that the peers rely on. A store through a pointer into the
-- table is an operation of the interface. Peers.Table.Hashed fills the interface with the hash
-- map, and Peers.Table.Clean removes old peers with the iterator of the hash map.
--
-- HashMap (main/owl/hashmap.c) is an open-addressing table: the array is a function of the index,
-- and the hash of a key and the comparison of keys are a parameter, Keys. Whether `calloc` has
-- memory is a parameter too. HashMap.Valid says when a table is in good order: every key that it
-- holds is found by probing from its hash, at one place, and the size counts the entries.
-- HashMap.Lookup, Write, Move and Rehash carry the proofs, and HashMap.Laws and HashMap.Fuel have
-- the results; Peers.Table.Keys compares the bytes of Ethernet addresses.
--
-- CircularBuffer (main/owl/circular_buffer.c) is the queue of packets for many peers.
-- CircularBuffer.Contents reads a buffer as a list, CircularBuffer.Run compares sequences of
-- calls with those of a bounded queue. RingBuffer (main/utils/ringbuffer.c) is the history of the
-- console, which RingBuffer.History reads as a list.
--
-- Election (main/owl/election.c) chooses the master. A run is a fold over the peers in the order
-- of the table. Sync (main/owl/sync.c) has the availability windows (AW) and extended
-- availability windows (EAW), counted from the last update by the master.
--
-- Tx (main/owl/tx.c) fills the frames. A function that fills a buffer and returns the number of
-- bytes is the list of these bytes. Tx.Tlvs has the TLVs, Tx.Frames the headers and both frames.
--
-- Schedule (main/owl/schedule.c) says when a frame may be sent, in microseconds where the source
-- returns floating point seconds.
--
-- Rx (main/owl/rx.c) takes frames apart. Its functions are statements on a state, with early
-- returns: what was stored before an error stays stored. Rx.Tlvs has the handlers of the TLVs,
-- Rx.Action the action frames, Rx.Data the data frames and aggregates, Rx.Receive the entry
-- awdl_rx, with Rx.Receive.Header and Accept on the headers of a sent frame. Rx.Loop has the loop
-- over the TLVs against a fold, for bytes behind them that do not begin a TLV (Ends), Rx.Announce
-- the way from the bytes of Tx to the peer that Rx keeps, with Rx.Announce.Frame on a whole
-- action frame, Rx.Payload the way of a payload, Rx.Aggregate the loop over the parts of an
-- aggregate.
--
-- Core (main/wifi/core.c and awdl.c) joins the parts. Core has the conversions of addresses,
-- Core.Daemon the state of the daemon, the sending of frames, what the driver does with a packet
-- from the host, and the timers that send and that change the channel, Core.Clean the timer that
-- removes old peers and runs the election. A frame that is sent is appended to a list. A timer is
-- the time to which the callback sets it, in microseconds. Core.Capture (main/wifi/capture.c) has
-- the callback for captured frames, with the size of the driver's header and its length field as
-- parameters, Core.Host the way of a received payload to the host. The field overrun of Captured
-- says that awdl_rx has handed on more packets than the array of 16 pointers has places; what the
-- code does then is not modelled. Core.Air and Core.Air.Mif have the way of whole frames from the
-- sender's bytes through the callback, behind the driver's header. Core.Air.Any follows captured
-- frames of any bytes, with Rx.Keeps on the statements of the receive path. Core.Events has the
-- start of the node, awdl_disable, and a step for each callback and each packet from the host;
-- what belongs to the platform is the record Platform. Core.Events.Reach has the states that
-- these steps reach, in any order.
--
-- Cli (main/cli/uart.c and command.c) is the console. Characters are their codes. Cli.Console has
-- a round of the loop of uart_event_task on the bytes read, the array of the line and the
-- history, Cli.Trim the deletion of a word, Cli.Command the commands, whose calls are values of
-- Action. The string in an array ends at its first 0. Cli.Console.Edit is an editor on a plain
-- text, Cli.Console.Run compares sequences of inputs with it. Where trim_command reads in front
-- of the array the model stops at its beginning, and up_arrow on an empty history takes the empty
-- string. A reply of type_bytes says that a write goes behind the array of the line or the memory
-- of a string; how many bytes malloc really gives is a parameter. After a restart the console
-- begins anew, in memory that is a parameter.
--
-- Utils (main/utils/convert.c and utils.c) has the hexadecimal text of bytes and the joining of
-- strings, with malloc and strtol as parameters, and a result for a write behind the memory of
-- the line; Utils.RoundTrip has both.
--
-- Numbers: uint8_t to uint64_t are natural numbers with the remainder written where the source's
-- type cuts; int and the result codes are integers without a bound, so that the sum of an offset
-- and a width in wire.c does not overflow: the offsets of the program are far below 2^31;
-- `unsigned long` has 32 bits, as on the ESP32. Times are arguments where the source reads the
-- clock. Memory that the source does not initialise (a new peer, an array on the stack, a buffer
-- from malloc) is an argument with arbitrary contents.
--
-- Loops: the loop over the TLVs and the loop over the parts of an aggregate run on a number of
-- rounds, the bytes of the frame. A round of the first strips at least three bytes, one of the
-- second at least fourteen, so that these rounds are enough. The fuel of hashmap_put counts
-- doublings of the table; without fuel there is no memory, and fuel beyond the largest array that
-- `calloc` gives does not change the result. The loop that removes old peers gets one round more
-- than the table has elements, and each round moves the iterator on.
--
-- Not modelled: SipHash, a copy of the function of libsodium (main/owl/siphash24.c); the
-- multicast test of lwIP, which is a parameter; the calls of the start-up to the platform
-- (main/wifi/capture.c, main/main.c), the creation of tasks and timers and the lists of
-- neighbours in main/wifi/core.c, and the glue to the network stack; the task and system
-- information in main/utils; reading, printing and the back trace of the console; the certificate
-- (main/drop), logging and the functions that make strings for it; and functions that only
-- release memory. The callback for TLVs is not called, since no code sets it.
pub mod Base
pub mod Ethernet
pub mod Wire
pub mod Version
pub mod Frame
pub mod HashMap
pub mod CircularBuffer
pub mod RingBuffer
pub mod Peers
pub mod State
pub mod Election
pub mod Sync
pub mod Channel
pub mod Crc32
pub mod Schedule
pub mod Tx
pub mod Rx
pub mod Core
pub mod Cli
pub mod Utils
