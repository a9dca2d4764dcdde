-- ===== src/Lib.antt =====
-- IpcPortable: remote procedure calls between two programs over a transport that the user supplies.
--
-- A call is written as a packet: twelve bytes of header (size, type, id) and the data, which are
-- the procedure's name, whether an answer is wanted, the return type, the text of the parameter
-- types, and the arguments. The receiving side reads the packet, searches its map of handlers for
-- the name and the parameter types, calls the handler with the arguments, and answers with a
-- packet of the same id. Over a byte transport a parser cuts the bytes into packets.
--
-- The files and what they model, with paths from the repository's root:
--   Common: shared names, lists over native numbers, 32-bit arithmetic (`add32`, `sub32` wrap), and
--     `Action`, state passing in which `none` is undefined behaviour of the C++ code: an access
--     outside a buffer, a null pointer read, an object without a value.
--   Stream: Ipc/MAssIpc_DataStream.h and .cpp. The record `DataStream` has the two buffers, the
--     positions and the number of asserts raised; `write_bytes`, `read_bytes`, `write_raw_data`,
--     `read_raw_data` are the primitives, Bytes the byte order, Integers, Texts and Procs the
--     operators `<<` (put_…) and `>>` (get_…). Appending and Taking say what a writer and a reader
--     do on a stream with room, or with its layout, and compose.
--   RawString: Ipc/MAssIpc_RawString.h and .cpp, with `SignatureKey` of Ipc/MAssIpc_Internals.h.
--   Packet: Ipc/MAssIpc_Packet.h, `ReadHeader` and `PacketHeaderWrite`.
--   Parser: Ipc/MAssIpc_PacketParser.h and .cpp, over any transport of the module Transport
--     (Ipc/MAssIpc_Transport.h); Framing is its specification, Delivery a whole run over the
--     transport of Autotests/IpcTransport_MemoryCopy.h (Transport/Memory).
--   Proxy: Ipc/MAssIpc_TransportProxy.h and .cpp.
--   Signature: the texts of parameter types in Ipc/MAssIpc_Internals.h.
--   Call: `CreateDataStream`, `CreateDataStreamInplace`, `SerializeReturn` (Ipc/MAssIpc_Internals.h
--     and .cpp), `SerializeCall`, `CalcCallSize` (Ipc/MAssIpcCall.h), `DeserializeNameSignature`,
--     `ReceiveCallDataBuffer`, `StoreReturnFailCall` (Ipc/MAssIpcCall.cpp).
--   RoundTrips: what is written and read back, for each composite type.
--   Procs: `CallInfoImpl` and `ProcMap` (Ipc/MAssIpc_Internals.h and .cpp). Table is `std::map` as a
--     list in ascending order; Finite and Assigning relate it to finite maps; Objects and Heap are
--     about the objects that the maps share; Registration, Searching, Clearing and Merging
--     about the operations.
--   Engine: `InvokeLocal`, `ProcessBuffer` (Ipc/MAssIpcCall.cpp) and the jobs of
--     Ipc/MAssIpc_Internals.h, as functions on the record `Engine`, which keeps a list of the effects
--     on the rest of the program. Jobs has the jobs, Analysis `AnalizeInvokeData`; Answering, Serving
--     and Rejecting follow a call's packet to the packet of its answer.
--   Calling: `NewCallId`, the packet of an outgoing call (`InvokeUnified`) and of `EnumerateRemote`,
--     and the data of `PendingResponces` (Ipc/MAssIpcCall.h and .cpp).
--   Waiting: `ProcessTransportResponse`, `LockCurrentThreadId`, `InvokeRemote` and `ProcessTransport`
--     (Ipc/MAssIpcCall.cpp). The two sections under the lock are functions; Threads has, for any
--     number of threads, the stack of their calls and the moves of a thread's newest call, which come
--     in any order: handlers that call again push a call.
--   Transthread: Ipc/MAssIpc_TransthreadCaller.h and .cpp. Waiters, their sets and the receivers of
--     threads are heaps; the operations come in any order. The two sections of `CallFromThread` are
--     taken together, those of `AddTargetThreadId` also apart. What is posted is recorded, and the
--     calls that a thread processes are an argument.
--   Waiter: Ipc/MAssIpcWaiter.h. Events, their shared checks, the filter and the counters of
--     objects as one state, the operations in any order; `BindConnect` takes its start and binds in
--     one step. A wait is the list of the states in which its predicate is evaluated.
--   Conversation: a call, a refused call and an enumeration, from the packet that Calling makes
--     through the Engine of the other program to what the caller's Engine makes of the answer.
--   CallbackList: the list of callbacks in Practice/TestabilityInterfaceQt/IntegrationSut/
--     EventHandlerMap.h: control blocks by address, with the assignments to their pointers, and the
--     references that elements, loops and `Delete_Unlocked` hold. Each operation runs under the lock
--     of the list, and the destructor of a block runs together with the drop of its last reference.
--
-- Fuel: the loop of `NewCallId` runs for one round more than there are answers waiting, which
-- Calling/Fresh proves to be enough; the loops over the ring of callbacks end with any fuel beyond the
-- number of blocks, by CallbackList/Ring and CallbackList/Removing. Every other loop runs over a list
-- or over a count that is known before it.
--
-- Parameters: a byte transport is a record of operations, and its contract, that the bytes which
-- have arrived form a queue, is the record `IsQueue`; `Create` of a packet transport is a function,
-- and theorems suppose that it gives a buffer of the size asked for. The delegates of the
-- application are fields of the handlers.
--
-- Not modelled: `AtomicSharedPtr`, the templates that only compute types, `CreateInternals` of the
-- transthread caller (its object is there or has expired), the virtual operations that an application
-- supplies, the socket transports, the autotests, the example
-- applications, and of `EventHandlerMap` the maps of callers.
pub mod Common
pub mod Stream
pub mod RawString
pub mod Packet
pub mod Transport
pub mod Parser
pub mod Proxy
pub mod Signature
pub mod Call
pub mod RoundTrips
pub mod Procs
pub mod Engine
pub mod Calling
pub mod Waiting
pub mod Transthread
pub mod Waiter
pub mod Conversation
pub mod CallbackList
