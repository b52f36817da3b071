-- ===== src/Message/Build.antt =====
-- The constructors of ActiveBSP/src/actormsg/*.cpp that build a message to send: the buffer that they
-- fill. `memory` is what the allocated memory holds before, which stays in the bytes that a
-- constructor does not set. The pointer in a part of a request, which only the process that sends
-- it uses, counts among these bytes.
use activebsp.Base.{
  ℕ, ◌+◌, ◌*◌, Bool, List, [], ◌∷◌, ◌++◌, length, copy_into, to_int, if◌then◌else◌, Result, ok,
  fault, out_of_bounds, length_error, ltb, int_min, ◌>>=◌,
}
use activebsp.Store.DataStore.{Bytes}
use activebsp.Message.{Message, ReqPart, FetchMessage}
use activebsp.Message.Instruction
use activebsp.Message.Fields.{int_bytes, size_bytes, ints_bytes, int_sized, unset}

-- `DISTR_BLOCK`.
abbrev pub distr_block : ℕ
distr_block = 1

unfoldable pub stop_actor_process_message : Bytes
stop_actor_process_message = int_bytes Instruction.stop

-- `new char[_buf_size]`, where `_buf_size` is an `int`, for a message of `n` bytes. One that wraps
-- round to a negative size is refused, and one that wraps round further is written past its end.
unfoldable pub allocated : ℕ → Result Bytes → Result Bytes
allocated n filled =
    if ltb n int_min
    then filled
    else fault (if ltb (to_int n) int_min then out_of_bounds else length_error)

unfoldable pub create_actor_message : Bytes → List ℕ → Result Bytes
unfolding allocated
create_actor_message actor_name pids = allocated (16 + (length actor_name + 1) + 4 * length pids) (
    int_sized (actor_name ++ (0 ∷ [])) >>= λ name. int_sized (ints_bytes pids) >>= λ pid_bytes. ok (
      int_bytes Instruction.create_actor
      ++ (int_bytes 0
          ++ (int_bytes (to_int (length actor_name + 1))
              ++ (int_bytes (to_int (length pids)) ++ (name ++ pid_bytes))))))

unfoldable pub stop_actor_message : Bool → Bytes
stop_actor_message ask_answer =
    int_bytes Instruction.destroy_actor ++ ((if ask_answer then 1 else 0) ∷ [])

unfoldable pub call_actor_message : Bytes → Bytes → ℕ → Result Bytes
call_actor_message function_name args future_key = int_sized (function_name ++ (0 ∷ [])) >>= λ name.
    int_sized args >>= λ arg_bytes. ok (
      int_bytes Instruction.call_actor
      ++ (int_bytes 0
          ++ (int_bytes future_key
              ++ (int_bytes (to_int (length function_name + 1))
                  ++ (int_bytes (to_int (length args)) ++ (name ++ arg_bytes))))))

unfoldable pub register_future_message : ℕ → Bytes → Result Bytes
register_future_message future_key future_data = int_sized future_data >>= λ data_bytes. ok (
    int_bytes Instruction.register_future_data
    ++ (int_bytes future_key
        ++ (int_bytes 0 ++ (int_bytes (to_int (length future_data)) ++ data_bytes))))

unfoldable pub get_future_data_message : ℕ → Bytes
get_future_data_message future_key = int_bytes Instruction.get_future_data ++ int_bytes future_key

unfoldable pub release_future_message : ℕ → Bytes
release_future_message future_key = int_bytes Instruction.release_future ++ int_bytes future_key

unfoldable pub release_result_part_message : ℕ → Bytes
release_result_part_message resid = int_bytes Instruction.release_result ++ int_bytes resid

unfoldable pub distribute_vector_message : ℕ → ℕ → ℕ → Bytes
distribute_vector_message type n elem_size =
    int_bytes Instruction.distribute_vector
    ++ (int_bytes type ++ (size_bytes n ++ size_bytes elem_size))

unfoldable pub prefetch_message : ℕ → ℕ → ℕ → Bytes
prefetch_message future_pid future_key dv_size =
    int_bytes Instruction.prefetch
    ++ (int_bytes future_pid ++ (int_bytes future_key ++ size_bytes dv_size))

module _ (memory : ℕ → ℕ) where
  -- The case `only_address = false`, the only one that is used. The structure is 24 bytes long,
  -- 7 more than where its data begins.
  unfoldable pub store_result_message : ℕ → Bytes → Bytes
  store_result_message resid bytes =
      int_bytes Instruction.store_result
      ++ (int_bytes resid
          ++ (unset memory 8 4
              ++ (size_bytes (length bytes) ++ (0 ∷ bytes ++ unset memory (21 + length bytes) 7))))

  unfoldable pub store_result_part_message : ℕ → Bytes → ℕ → ℕ → Bytes
  store_result_part_message resid bytes offset full_size =
      int_bytes Instruction.store_result_part
      ++ (int_bytes resid
          ++ (unset memory 8 4
              ++ (size_bytes (length bytes)
                  ++ (size_bytes offset ++ (size_bytes full_size ++ bytes)))))

  -- The array of `result_req_part_t`, which begins at the offset given.
  unfoldable pub parts_bytes : ℕ → List ReqPart → Bytes
  parts_bytes at [] = []
  parts_bytes at (part ∷ parts) =
      int_bytes part.resid
      ++ (unset memory (at + 4) 4
          ++ (size_bytes part.offset
              ++ (size_bytes part.size
                  ++ (unset memory (at + 24) 8 ++ parts_bytes (at + 32) parts))))

  unfoldable pub get_result_parts_message : ℕ → List ReqPart → Bytes
  unfolding parts_bytes
  get_result_parts_message forward_to parts =
      int_bytes Instruction.get_result_parts
      ++ (int_bytes (to_int (length parts)) ++ (int_bytes forward_to ++ parts_bytes 12 parts))

  -- The keys are left for `gatherKeys`, and the structure is 24 bytes long, 4 more than where its
  -- data begins.
  unfoldable pub fetch_message : List ℕ → ℕ → ℕ → ℕ → Bytes
  fetch_message pids req_future_key res_future_key dv_size =
      int_bytes Instruction.fetch
      ++ (size_bytes dv_size
          ++ (int_bytes req_future_key
              ++ (int_bytes res_future_key
                  ++ (int_bytes (to_int (length pids))
                      ++ (ints_bytes pids
                          ++ unset memory (24 + 4 * length pids) (4 * length pids + 4))))))

  -- The fetch message with the keys that `gatherKeys` writes at `getKeys()`.
  unfoldable pub filled_fetch_message : FetchMessage → Bytes
  unfolding fetch_message
  filled_fetch_message f =
      copy_into (fetch_message f.pids f.req_future_key f.res_future_key f.dv_size)
        (24 + 4 * length f.pids) (ints_bytes f.keys)

  -- A message by the constructor of its class.
  unfoldable pub build : Message → Result Bytes
  build Message.stop_actor_process = ok stop_actor_process_message
  build (Message.create_actor name pids) = create_actor_message name pids
  build (Message.stop_actor ask_answer) = ok (stop_actor_message ask_answer)
  build (Message.call_actor m) = call_actor_message m.function_name m.args m.future_key
  build (Message.register_future key bytes) = register_future_message key bytes
  build (Message.get_future_data key) = ok (get_future_data_message key)
  build (Message.release_future key) = ok (release_future_message key)
  build (Message.store_result resid bytes) = ok (store_result_message resid bytes)
  build (Message.store_result_part m) =
      ok (store_result_part_message m.resid m.bytes m.offset m.full_data_size)
  build (Message.release_result_part resid) = ok (release_result_part_message resid)
  build (Message.get_result_parts to parts) = ok (get_result_parts_message to parts)
  build (Message.distribute_vector n elem_size) =
      ok (distribute_vector_message distr_block n elem_size)
  build (Message.prefetch m) = ok (prefetch_message m.future_pid m.future_key m.dv_size)
  build (Message.fetch m) = ok (filled_fetch_message m)
