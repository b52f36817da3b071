-- ===== src/Lib.antt =====
-- ActiveBSP: actors whose processes share distributed vectors over MPI. Each process has a
-- management thread, the `ActorServer`, that receives messages and keeps futures and parts of vectors, and a
-- worker thread that runs the actor's functions and reads vectors through the communicator.
--
-- What models what (paths from the repository's root):
--   Distribution/BlockRange: src/ActiveBSP/src/distributions/block_distribution.cpp, `div_range`, and
--     the distributor of src/ActiveBSP/include/Distributor.h in Distribution.antt.
--   Distribution/VectorDistribution: src/ActiveBSP/src/vector_distribution.cpp, the table of parts.
--   Distribution/Allocator: src/ActiveBSP/src/procassign/contiguous_assign.cpp.
--   Distribution/Ranges: the part of a range that one part of a vector holds, as `dv_get_part` and
--     `fetchDv` compute it.
--   Store/DataStore: src/ActiveBSP/src/future/DataStore.cpp, the parts that a process holds.
--   Store/Futures: src/ActiveBSP/src/future/LazyFutureDataStore.cpp and FutureKeyManager.cpp there.
--   Message: the messages of src/ActiveBSP/include/actormsg. Message/Build has the buffers that the
--     constructors of src/ActiveBSP/src/actormsg fill, Message/Parse the accessors and the factory,
--     and Message/Fits what the fields can carry.
--   Serialization: src/ActiveBSP/include/serialization/contiguous_serialization.hpp and
--     serialization.hpp there, with `actor_function_handler` of src/ActiveBSP/include/decl_actor.h.
--   Server: src/ActiveBSP/src/management/ActorServer.cpp. Server/State has the fields of the object,
--     the mutex, the worker's queue and what was sent; Server/Results the handlers for parts;
--     Server/Futures those for futures; Server/Fetch and Server/Prefetch the moving of a vector to
--     another actor, with Server/Prefetch/Moves the way of one block; Server/Wire
--     `receiveActorMessage` and the loop on bytes; Server/Route the handlers of the worker, the
--     dispatch and the loop `run`;
--     Server/Safety the histories of messages and of the worker thread's steps between them, with
--     Server/Safety/Keys and Server/Safety/Distinct the keys that they take;
--     Server/Reader the wait of `readStoredResult` for a part, between the steps of the management
--     thread.
--   Communicator: `dv_get_part`, `block_distribute` and `dv_release` of
--     src/ActiveBSP/src/mpi/MPIActorCommunicator.cpp, with `readStoredResult` of
--     src/ActiveBSP/src/shmem/SharedMemoryMasterProxy.cpp.
--   Worker: src/ActiveBSP/src/worker/ActorWorker.cpp, src/ActiveBSP/src/future/LazyResultPublisher.cpp
--     and src/ActiveBSP/src/shmem/SharedMemoryRequestQueue.cpp: the calls that the server queues and
--     the worker serves. Worker/Spmd has the parallel functions of src/ActiveBSP/src/Actor.cpp and the
--     loop of the other processes, Worker/Results the results of src/ActiveBSP/src/Actor.cpp and
--     `gather_distr_parts` of src/ActiveBSP/include/Actor.hpp, Worker/Broadcast
--     `broadcast_dv` of src/ActiveBSP/src/Actor.cpp, Worker/End `handler` and `destroyActor` on the
--     first process and on the others.
--   Caller: the proxies and futures of src/ActiveBSP/include/Proxy.hpp and
--     src/ActiveBSP/include/future/Future.hpp, and a remote call from end to end.
--   ImageDatabase: src/examples/imgproc/src/ImageDatabase.cpp, an actor of the examples whose
--     processes hold a hash table of images. ImageDatabase/Sequential has `insertSeq`, and
--     ImageDatabase/Files `saveDb` and `loadDb`.
--   Base and Pieces: lists, memory blocks, machine integers, maps and results that these share.
--   Tests: runs at concrete inputs.
--
-- Conventions. An operation takes a state and gives a state or a fault: a failed assertion, a mutex
-- locked twice, a null pointer followed, an access out of bounds or a length that cannot be
-- allocated. An `int` is its 32-bit pattern and a `size_t` a number below 2 ^ 64, with the wrapping
-- written out; the sizes of vectors in memory are plain lengths, and the buffer of a vector
-- distribution, whose size is an `int`, is taken for fewer than 89478485 parts. `data()` of an empty
-- vector is the null pointer, as in libstdc++. A `std::map` is a function from keys
-- to options. What a process sends is a list, oldest first. Every loop is structural recursion on
-- the parts, processes, requests or messages, but for that of `bsp_load_db`, which opens files
-- until one is missing: it is given a number of turns, and one more than there are images is enough.
--
-- Parameters: the functions of an actor (by name, on the actor's object), the Boost serialization of
-- a vector distribution (`DvCodec`), the key gathering and the broadcast among the processes of an
-- actor (inputs of a message), in a read of a vector the parts that the processes hold, and what
-- the BSP library's puts and gets bring. For the image database these are the two hash functions and
-- the delivery of puts, of which ImageDatabase/Delivery says what is relied on, and for its files
-- `PATH_MAX` and what `snprintf` makes of a name, of which `IsNamed` says it.
--
-- Not modelled: the ownership of message buffers, arguments whose types go to Boost, the
-- functions of the actor base that forward to the BSP library, MPI wrappers, start-up,
-- logging, the other examples, and tests. Sends are taken to complete,
-- and the worker's thread works between two messages of the management thread, not in the middle
-- of one.
pub mod Base
pub mod Pieces
pub mod Distribution
pub mod Store
pub mod Message
pub mod Serialization
pub mod Server
pub mod Communicator
pub mod Worker
pub mod ImageDatabase
pub mod Caller
pub mod Tests
