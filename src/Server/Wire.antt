-- ===== src/Server/Wire.antt =====
-- `sendActorMessage` and `receiveActorMessage` of ActiveBSP/src/mpi/MPIActorCommunicator.cpp and the loop of ActorServer.cpp
-- over what it receives: the buffer of the process, which keeps the end of longer messages that
-- came before, and the message that the factory reads from its beginning.
pub mod Transport
use activebsp.Base.{
  ℕ, Option, none, some, List, [], ◌∷◌, length, copy_into, ltb, if◌then◌else◌, Result, ok, fault,
  length_error, take, to_int, int_min, ◌>>=◌,
}
use activebsp.Distribution.VectorDistribution.{VectorDistribution}
use activebsp.Store.DataStore.{Bytes}
use activebsp.Message.{Message}
use activebsp.Message.Parse.{create_message}
use activebsp.Server.State.{Server}
use activebsp.Server.Fetch.{DvCodec}
use activebsp.Server.Route.{Incoming, handle, stop_worker}

-- A message as it arrives, with what its collective operations give.
pub record Packet : Type 0 where
  pub src : ℕ
  pub bytes : Bytes
  pub gathered : List ℕ
  pub heard : VectorDistribution

-- `sendActorMessage`: the bytes that go to MPI are counted in an `int`, which `getDataSize` gives. MPI
-- does not take a negative count.
unfoldable pub send_actor_message : Bytes → Result Bytes
send_actor_message bytes =
    let data_size = to_int (length bytes) in
    if ltb data_size int_min then ok (take data_size bytes) else fault length_error

-- `_recv_buf` after a message: a new buffer of its size if the old one is too small.
unfoldable pub fill_recv_buf : Bytes → Bytes → Bytes
fill_recv_buf recv_buf bytes =
    if ltb (length recv_buf) (length bytes) then bytes else copy_into recv_buf 0 bytes

abbrev pub incoming : Packet → Message → Incoming
incoming p m = record { src = p.src; message = m; gathered = p.gathered; heard = p.heard }

-- `receiveActorMessage`: the message read from the buffer. The size of what arrives is an `int`, and
-- a negative one is too long for the buffer.
unfoldable pub receive : Bytes → Packet → Result (Option Incoming)
unfolding fill_recv_buf
receive recv_buf p =
    let found = create_message (fill_recv_buf recv_buf p.bytes) >>= λ found. elim found [
      | none ↦ ok none
      | some m ↦ ok (some (incoming p m))
    ] in
    if ltb (length p.bytes) int_min then found else fault length_error

module _ (codec : DvCodec) where
  -- `run`, with the buffer.
  unfoldable pub run_packets : Server → Bytes → List Packet → Result Server
  unfolding fill_recv_buf receive
  run_packets s recv_buf [] = ok s
  run_packets s recv_buf (p ∷ ps) =
      let next = fill_recv_buf recv_buf p.bytes in
      receive recv_buf p >>= λ found. elim found [
        | none ↦ run_packets s next ps
        | some m ↦ handle codec s m >>= λ s'.
            let rest = run_packets s' next ps in
            let stopped : Result Server = elim s'.worker [
              | none ↦ ok s'
              | some queue ↦ stop_worker s'
            ] in
            if s'.running then rest else stopped
      ]
