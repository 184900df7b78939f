-- ===== src/Lib.antt =====
-- The PC side of a submarine monitoring system: the wire protocol, the bridge to the submarine's
-- controller (LNC), and the fleet management program.
--
-- The parts and the files:
--   common/protocol.c, protocol.h: Protocol.antt with Protocol/Bytes (Protocol_PutU16, GetU16, PutU32,
--     GetU32), Protocol/Tlv (Protocol_EncodeTLV, DecodeTLV, FindField), Protocol/Crc (crc16_update,
--     Protocol_Crc16) and Protocol/Frame (Frame_Encode, Frame_Decode). Buffers are lists of bytes; a
--     store or a read outside the buffer is the outcome `fault`; sums are cut to uint16_t as written.
--   pc_side/lnc_bridge/bridge_server.cpp: Bridge/Server, the globals as a record and a function for
--     each call. Each message on the TCP link is a 4-byte length and the payload. A send() may take fewer
--     bytes than it is given. Whether a copy has left g_recvBuf is kept in a field of its own.
--   pc_side/lnc_bridge/main.cpp: Bridge/Relay, one round of the main loop. It takes frames off the
--     serial line with Frame_Decode and hands the payloads to the server, and frames what the server
--     received. The socket calls and Transport_Recv are arguments.
--   pc_side/oop_fleet: Fleet/Console (PromptLine, PromptInt), Fleet/Link (the connection of a
--     CentralComputer), Fleet/Submarine (the classes), Fleet/Registry (FindBySerial and writes through
--     its pointer), Fleet/Operations (the methods of Fleet) and Fleet/Menu (main's switch, and the
--     fleets that it reaches), and Fleet/Telemetry (CacheMeasurementFields and PollLatestTelemetry,
--     with what recv() gives in each round as an argument); Fleet/History is the range of time in
--     Fleet::ViewHistoricalData and in pc_side/ground_station/main.cpp. std::stoi and CcCore_LncConnect are the
--     fields of a record `Outside`.
--   pc_side/central_computer/comm_gs.cpp and pc_side/ground_station/gs_queries.cpp: Ground/Records
--     (AppendMeasurementRecord, AppendEventRecord and the fields that are read back), Ground/Requests
--     (ParseGsRangeRequest and the request it parses), Ground/Replies (WrapMessage, GsSendRaw,
--     GsRecvMessage, the handlers and CC_GsLink_Dispatch; the stored records are an argument) and
--     Ground/Queries (GsSend, GsRecvMessage, Gs_RequestLog and Gs_RequestEvents, up to what they
--     print; the other end of the connection is an argument). Protocol/Walk is the walk over the
--     fields of a value, which these and management_command.cpp write out in their loops.
--     Ground/Session is CC_GsLink_Run on one client: the handshake, with the ground station's end of it
--     in pc_side/ground_station/main.cpp, and the requests until the client disconnects.
--   pc_side/central_computer/data_collection.cpp: Store (the lines, as << prints them and sscanf reads
--     them) and Store/Files (RotateIfNeeded, AppendLine, ReadAllLines, the two calls that store and the
--     two queries). A directory is the list of its files with their contents; the name of the day's
--     file is an argument. A number that does not fit its conversion is the outcome `fault`.
--   pc_side/central_computer/log.cpp: Log (CcCore_PrintKeepAlive and CcCore_PrintEventReport, up to
--     their calls of the store).
--   pc_side/central_computer/lnc_link_client.cpp: Lnc (CcCore_LncRecv, CcCore_LncSend and
--     CcCore_LncRecvMessage on the bytes that the socket delivers before it is closed).
--   pc_side/central_computer/management_command.cpp: Management (CcCore_GetTime, CcCore_SetRtc,
--     CcCore_SetBatteryWarningMin, CcCore_GetMeasurements and CcCore_GetEvents, over the same bytes:
--     what they send, store, print and leave).
--   pc_side/central_computer/main.cpp: Central (the synchronisation of the clock and the streaming loop
--     of one connection) and Central/Serving (the store between the LNC's reports and the ground
--     station's requests).
--   Common holds the helpers, Tests the theorems at concrete inputs.
--
-- Bounds and fuel: Protocol_FindField runs on fuel, one more round than the buffer has bytes; this is
-- enough for every buffer without two neighbouring bytes that spell 65533. Protocol/Walk has the same
-- fuel, which is enough for a sequence of fields of at most 65532 bytes. The loops of Lnc, Management
-- and Central have one more round than the stream has bytes; each round takes five bytes at least. Ten
-- digits are enough for a number of 32 bits. All other loops are structural. Output capacities of
-- frames are at most 65533, at which no uint16_t sum of the capacity tests wraps; the program's own is
-- 600. Payloads of the bridge have at most 256 bytes.
--
-- Not modelled: printing and the formatting of times, the socket, serial and file calls themselves (and
-- their failures), threads, the mutex of data_collection.cpp, start-up and command lines, the
-- prompts of the ground station, and the displays and the historical queries of the fleet.
pub mod Common
pub mod Protocol
pub mod Bridge
pub mod Fleet
pub mod Ground
pub mod Log
pub mod Store
pub mod Lnc
pub mod Management
pub mod Central
pub mod Tests
