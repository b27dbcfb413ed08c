-- ===== src/Lib.antt =====
-- A P4Runtime server (p4rt_server/) with its helpers (gutil/): controllers connect over streams,
-- arbitrate for the rank of primary connection of their role, and write to a switch that a
-- provider drives.
--
-- The parts, and where they are modelled:
--
-- - p4rt_server/sdn_controller_manager.h and sdn_controller_manager.cc: one connection per
--   controller, and the manager that arbitrates among them.
--     Controller/State.antt        SdnConnection, the fields of SdnControllerManager, the map
--                                  election_id_past_by_role_, SendStreamMessageResponse
--     Controller/Primary.antt      ValidateConnection, PrimaryConnectionExists,
--                                  UpdateToPrimaryConnectionState, SendArbitrationResponse,
--                                  InformConnectionsAboutPrimaryChange
--     Controller/Arbitration.antt  HandleArbitrationUpdate, Disconnect
--     Controller/Requests.antt     the three functions AllowRequest, SendStreamMessageToPrimary
--   A state is a `World`: the manager, the connection objects by their addresses (connections_ is
--   a list of pointers, so an address that is listed twice, or whose object is gone, can be
--   stated), and all messages that were written to streams, oldest first. An operation takes a
--   World and returns its result with the next one. The map is a function from optional role names
--   to an optional entry, which itself may be empty: operator[] enters an empty one, find does
--   not. The other files of Controller/ are theorems: Frame, Delivery and Verdict on the messages
--   that are sent, Highest, Invariant, Outcome and Growth on arbitration, Permission, Orphans and
--   PacketIn on requests and on messages for the primary, Views on what each controller was last
--   told, on what one update writes and in which order, Appends and Uniform on the messages of
--   before, of which the operations take none off and read none, Isolation and Echo on roles and
--   on the IDs in the responses. Controller/Registry.antt is the specification of the manager: a
--   Registry has the role and the election ID of each member and the highest election ID of each
--   role, and forgets the order of the connections, the objects, the keys of the map and the
--   messages; a History is what becomes of it under arbitrations and departures.
--   Registry/View.antt has the registry of a World, Registry/Arbitrates.antt and
--   Registry/Leaves.antt relate the operations to it, and Server/System/Refinement.antt whole
--   runs.
--
-- - p4rt_server/p4rt_server.h, p4rt_server.cc and switch_provider_base.h: the gRPC service and its
--   provider.
--     Server/Provider.antt  SwitchProviderBase as a record of functions over the subclass's own
--                           state, which may throw, its SendPacketIn, the state of P4RtServer, and
--                           the try blocks that all its calls have
--     Server/Rpc.antt       Write, Read, SetForwardingPipelineConfig, GetForwardingPipelineConfig
--     Server/Stream.antt    StreamChannel and GenerateErrorResponse
--   A call of StreamChannel is a function of the requests that Read delivers. Server/System/ has
--   all calls at once as a step relation, in which a step is what runs under the manager's lock,
--   or touches one connection only, in any order: opening a stream at an address that is free,
--   arbitrating, answering with an error, sending a message to a primary connection, and ending a
--   stream. An object keeps its contents when its stream ends, so that a pointer that is left over
--   reads them, where the program has undefined behaviour; the theorems that exclude a second
--   registration exclude such pointers. Server/System/Calls.antt ties the two together. In
--   Server/Pending/ the unary calls and the packet-outs take part: the test of the permission and
--   the call of the provider are two steps, and anything may come in between. In Server/Threads/
--   the writes take time: a thread holds the manager's lock from the begin of a critical section
--   until it has made all the writes of it, while others wait, or answer on their own streams
--   without the lock. A call of StreamChannel is the thread with the number of its connection's
--   address; SendStreamMessageToPrimary and AllowRequest are for every thread. These relations
--   have more runs than the program: a thread may answer that a packet-out is refused without
--   having tested it, and may go on after its update was refused. Threads/Wire.antt and
--   Threads/Progress.antt relate its runs to those of Server/System/, Threads/Stream.antt relates
--   them to the calls of StreamChannel, and Threads/Held.antt, Threads/Takeover.antt and
--   Threads/Overlap.antt are on writes that last while others move. Server/Gate, Reading,
--   Lifetime, Quiet, PacketOut and PacketIn are theorems on single calls, the other files of
--   Server/System/ on runs.
--
-- - gutil/status.h and status.cc: StatusBuilder, GetStatusAndLog, the builders for single codes
--   and the two conversions, in Status/Builder.antt, Status/Builders.antt and Status/Convert.antt;
--   ToAbslStatus and the macros RETURN_IF_ERROR, ASSIGN_OR_RETURN and RET_CHECK in
--   Status/Macros.antt, as functions of the code before them and the code behind them.
--   Status/Messages.antt has lemmas and the round trips of the conversions, and Status/Chains.antt
--   is on functions whose steps are chained by RETURN_IF_ERROR.
--
-- - gutil/embed_data/generate_cc_embed_data_main.cc: the generator of C++ sources with embedded
--   files.
--     Embed/Text.antt      the texts: namespaces, GenerateTocStruct, the literals, toc
--     Embed/Generate.antt  SlurpFile, GenerateHeader, GenerateImpl
--     Embed/Main.antt      main, behind the parsing of the command line
--   Embed/Lossless.antt, Embed/Rounds.antt and Embed/Exit.antt have the theorems.
--
-- - gutil/collections.h, gutil/io.cc and gutil/proto.cc: lookups in maps and insertions that must
--   be new, in Collections/Helpers.antt; ReadFile and WriteFile in Files/Io.antt; protobufs from
--   files and strings in Files/Proto.antt. Collections/Unique.antt, Files/Outcome.antt and
--   Files/Proto.antt have theorems.
--
-- - gutil/status_matchers.h, gutil/proto_matchers.h and gutil/testing.h: the matchers for tests,
--   in Matchers/Status.antt, Matchers/Proto.antt and Matchers/Parsing.antt. Matchers/Agree.antt
--   and the last two have theorems.
--
-- - Proto.antt has the P4Runtime messages, with the fields that the code names. Prelude.antt and
--   its children have what all parts share: comparisons of optional values as the standard library
--   makes them, membership in lists, the removal of the first occurrence, and Boolean tests.
--
-- Code that is not in the repository is a parameter: `Uint128Api` for absl::uint128
-- (`absl::MakeUint128` gives back its halves, if they have 64 bits), `StatusApi` for absl::Status
-- (which keeps its code, and its message unless it is OK), `TextApi` and `FileApi` for Abseil's
-- text functions and for file streams (a literal with escaped bytes denotes these bytes), `MapApi`
-- for maps (which insert new keys only), `FstreamApi` and `ErrnoApi` for the streams of ReadFile
-- and WriteFile (a close that fails does not set the bad bit), `ProtoApi` for protobufs,
-- `DifferApi` for their comparison, `TestApi` and `Matcher` for the test framework (whose `_`
-- matches everything), `StatusLike` for another library's statuses, and the provider; of
-- protobufs, their comparison and other statuses nothing is assumed, and of the provider that its
-- functions change its own state only: a packet-in that it sends while one of them runs is not
-- part of that call, but a step of the runs in Server/System/ and Server/Threads/, at any time.
-- Tests/Samples.antt and the other files of Tests/ give concrete ones.
--
-- Bounds and fuel: election IDs are numbers; that they have 128 bits matters only where they are
-- made of two halves and split again, and there the bounds are hypotheses. Loops are structural
-- recursion on the list they go through. The one on fuel is `lines` of Embed/Text.antt, which gets
-- the length of the file: each round takes at least one byte off, so that this is enough
-- (Embed/Rounds.antt).
--
-- Not modelled: lines in the log; a Write to a stream that fails, which the code only logs; what
-- the process leaves behind when an exception of the provider has ended it; of the threads of
-- gRPC, how they are made and scheduled, and the steps within a critical section other than its
-- writes, as nothing outside of the lock reads what it guards; gutil/overload.h, which only
-- combines call operators; the tests of gutil/; and the build files.
pub mod Prelude
pub mod Proto
pub mod Status
pub mod Controller
pub mod Server
pub mod Collections
pub mod Files
pub mod Matchers
pub mod Embed
pub mod Tests
