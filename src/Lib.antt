-- ===== src/Lib.antt =====
-- MSAP1_APU is the software of a power meter's application processor. Its services talk to each
-- other in frames over Unix sockets, a Modbus server shows the measurements to other devices over
-- TCP and serial lines, the acquisition service labels the samples of the measurement hardware with
-- UTC, the data sender generates and delivers the data of scheduled jobs, an energy ledger keeps the
-- lifetime counters in a database, and a publisher sends snapshots to an MQTT broker.
--
-- What models what:
--   Ipc.Bytes: ByteWriter and ByteReader of common/mnc/ipc/ipc.cpp; Ipc.Envelope: encode_envelope,
--     decode_envelope and FramedConnection::receive; Ipc.Queue: FramedConnection's enqueue,
--     start_next_write with its completion handler, and close, as steps on the connection's strand.
--   Modbus.Encoding: common/mnc/modbus/encoding.cpp; Modbus.Handler: RequestHandler::handle of
--     request_handler.cpp over a register bank, which is a record of operations that both transports
--     take; Modbus.Tcp and Modbus.Tcp.Slots: the sessions and the slots of tcp_server.cpp; Modbus.Rtu:
--     the frame assembler, the reads of a port and process_frame of rtu_server.cpp; Modbus.Rtu.Port: a
--     port's output queue and silent interval.
--   Meter.Timebase: common/msap1/meter/measurement_timebase.cpp.
--   Datalogger.Retry and Datalogger.Generation: next_boundary, retry_delay and generate_due of
--     common/mnc/datalogger/scheduler.cpp; generate_due stands over a record of the
--     outbox's operations, which Datalogger.Generation.Stored fills with the outbox below.
--   Datalogger.Outbox: common/mnc/datalogger/outbox_repository.cpp, its tables as lists of rows and its
--     payload files as a list (Tables has the statements). Claims: due, claim_due, retry, retry_channel
--     and validate_channels; Payloads: enqueue, content, the storage guard and the watermarks; Results:
--     record_result with the release and the pruning of what was sent; Removal: erase; Recovery:
--     initialize with recover_locked. Runs: any sequence of these calls and of starts of the process. A
--     call is given its luck: whether a transaction commits, a file is removed and a directory synced.
--     Locks and Kept have what all calls leave alone: the row of one delivery, and one artifact with
--     its payload. Datalogger.Delivery: deliver_due of scheduler.cpp over this outbox.
--   Energy.Values: the energy readings of common/msap1/meter/meter_data.hpp and their array of counters
--     (energy_demand.cpp); Energy.Columns, Energy.Rows, Energy.Sums and Energy.Ledger: the columns, the
--     row, the sums, ingest_energy, reset_energy and load_energy of common/msap1/meter/energy_ledger.cpp,
--     over transactions that commit or not; Energy.Ledger.Runs: any sequence of checkpoints, resets and
--     restarts. Energy.Record and Energy.Family: the words of common/msap1/meter/meter_record.hpp and
--     the checks and the decoding of an ENERGY-v1 family in energy_demand.cpp; Energy.Assembler: its
--     EnergyFamilyAssembler, whose completed families the ledger ingests.
--   Mqtt.Scheduler and Mqtt.Configure: common/msap1/mqtt/meter_publication_scheduler.cpp, each section
--     under its mutex a step (the two of a timer together), over the catalogue and the provider, which
--     are a record of operations.
--   Acquisition.Rpu: common/msap1/acquisition/rpu/protocol.cpp.
--   Settings.Access and Settings.Router: access_policy.hpp and request_router.cpp of
--     apps/MeterCore/Services/settings/ipc, over a settings handler that is a record of operations;
--     Settings.Router.Secrecy compares two handlers that differ in their secrets.
--
-- Bytes and words are natural numbers with their wrap-around written out; a std::byte vector is a
-- list. An exception is an error value. Code that runs on a strand or under a lock is one step, and
-- concurrent code is any sequence of steps. Boost's sockets and CRC, OpenSSL's digest, the executor of
-- the deliveries, the bytes available on the disk and the numbers of system accounts are parameters,
-- with the laws that the code relies on.
--
-- Fuel: the loop of the frame assembler takes one more round than the buffer has bytes, which is
-- enough, because every frame has at least eight. The loop of a TCP session is given the number of
-- rounds in which its run is still current. All other loops are structural.
--
-- Not modelled: threads, timers and devices; the encoding of floating-point values; SQL itself; the
-- lists and the summaries of the outbox, which only report, and the writers of its contents; the web
-- backend, the command line client, the waveform formats, the decoding of meter records and the demand
-- half of the ledger.
pub mod Prelude
pub mod Ipc
pub mod Modbus
pub mod Meter
pub mod Datalogger
pub mod Settings
pub mod Acquisition
pub mod Energy
pub mod Mqtt
