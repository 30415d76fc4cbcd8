-- ===== src/Lib.antt =====
-- The firmware core of skyBlip, an electronic-conspicuity tracker for general aviation.
--
-- The core (firmware/core) is pure C++ that decides; the services (firmware/products) and the
-- platform (firmware/hardware, firmware/ports) read the sensors, key the radio and write the flash
-- as it says. These modules model the core's deciders as functions on explicit state, one function
-- for each method, and prove what they promise.
--
-- - Base: shared notation. Tests on numbers, lists, machine words, the source's signed `int`.
-- - Util.LittleEndian, Util.Status, Fec.Crc: firmware/core/util/little_endian.h, the statuses of
--   util/result.h, and CRC-16 of firmware/core/fec/crc.cpp.
-- - Util.Fifo: firmware/core/util/fifo.h, the bounded ring, and Result of util/result.h.
-- - Comms.LinkClaim, Comms.LinkSessions: firmware/core/comms/link_claim.h and link_sessions.h, the
--   centrals that are connected and the queue of events that tells of them.
-- - Diagnostics.Record, Diagnostics.Payload: firmware/core/diagnostics/record.{h,cpp}, with the gap of
--   payload.h and payload_decided.cpp and the profiles of profile.h; every other payload is a record
--   that a caller gives.
-- - Diagnostics.Recorder: firmware/core/diagnostics/recorder.{h,cpp}, the ring of 64 records between
--   the subjects and the flash. Its three forms of `record` are `offer` of a record; a peek of one is
--   a peek of at most one.
-- - Traffic.Table: firmware/core/traffic/table.{h,cpp} and lease.h, the 48 aircraft heard lately, with
--   the choice of the one that gives way. The range check of sanity.cpp and the turn rate of
--   flight/turn.cpp, which are geometry, are parameters.
-- - Fec.Manchester, Fec.Scramble: firmware/core/fec/manchester.{h,cpp} and scramble.{h,cpp}, the line
--   code of the M band and the scrambling of a frame's words.
-- - Protocol.Air: firmware/core/protocol/air.{h,cpp}, the bursts of the two bands.
-- - Protocol.Adsl, Util.VariableRange: the fields of an ADS-L packet, of
--   firmware/core/protocol/adsl.{h,cpp} and util/variable_range.h; its callsign is Protocol.Adsl.Callsign.
-- - Identity.KeySlots: firmware/core/identity/key_slots.{h,cpp}, the unit's seeds in a memory that is
--   written once. The loop over blank slots has five turns of fuel for four slots.
-- - Dfu.Image, Dfu.Update: firmware/core/dfu/image.{h,cpp} and update.{h,cpp}, what a firmware image
--   says and how an update is judged. The walk over an image's entries has one turn of fuel for each
--   byte and one more; a decimal has ten digits, which a uint32_t never passes.
-- - Store.Sector: firmware/core/store/sector.{h,cpp}, the label at the head of a flash sector.
-- - Store.Allocator: firmware/core/store/sector_allocator.{h,cpp}, which sector of the shared pool a
--   recorder writes next: the flights and the diagnostics capture are two rings over one pool. The
--   state and its queries are in Allocator, the choice of a sector in Search, the operations in Moves,
--   the readout of a session in Sessions. The bisection there has 32 turns of fuel, as its span is of
--   32-bit words and halves at each turn.
-- - Power.Cutoff: firmware/core/power/cutoff.{h,cpp}, the ladder a falling cell is read on.
-- - Power.Shutdown: firmware/core/power/shutdown.{h,cpp}, the order in which the device goes dark.
-- - Flight.State: firmware/core/flight/state.{h,cpp}, on the ground or in the air.
-- - Timing.Slot: firmware/core/timing/slot.{h,cpp}, the radio's dwell map of the second.
-- - Timing.AirTime: AirTime of firmware/core/timing/channel.{h,cpp}, the hour's air time by minutes.
--   The loop that turns the ring has sixty turns of fuel, one for each bucket.
-- - Timing.Level: NoiseFloor and ChannelLevel of the same files, what the channel measures.
-- - Timing.Transmit: firmware/core/timing/transmit.{h,cpp}, when own-ship's bursts leave.
-- - Timing.DurableWrite: firmware/core/timing/durable_write.{h,cpp}, when a settings write may hold
--   the core, with the part of ConfigLinkService::drain_settings and write_settings
--   (firmware/products/skyblip_go/services/config_link.cpp) that acts on its verdicts. Whether power
--   holds a pass back and whether the store took a write are arguments of the pass.
--
-- How the code is read. A uint8_t, uint16_t or uint32_t is a natural number that wraps where the
-- source can wrap (`u8`, `u16`, `u32`, `sub32`); the 64-bit microsecond clock does not wrap. An
-- `int` that may be negative is the ℤ of Base.Int; one that cannot is a natural number. A method is a
-- function from the old state to the new one, with its result beside it where it has one. A history
-- is a list of events, the newest first. Time is an argument of each event, as it is of each method.
-- Arrays of a fixed length read only at their own indices are records or functions on the index.
--
-- Not modelled: texts for the screen and the bench (`to_string`), what the services do around the
-- deciders beyond the lines named in each file, the drivers, and the vendored libraries.
pub mod Base
pub mod Util
pub mod Fec
pub mod Store
pub mod Power
pub mod Timing
pub mod Flight
pub mod Comms
pub mod Dfu
pub mod Diagnostics
pub mod Traffic
pub mod Protocol
pub mod Identity
