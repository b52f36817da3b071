-- ===== src/Message/Parse.antt =====
-- ActiveBSP/src/actormsg/ActorMessageFactory.cpp and the accessors of the messages: what is read from
-- a buffer that arrived. The classes keep the buffer and read a field when it is asked for; here a
-- message is read whole. A buffer that ends before what is read is a fault.
use activebsp.Base.{
  ℕ, zero, suc, ◌*◌, ◌==◌, not, Option, none, some, List, [], ◌∷◌, drop, ltb, int_min,
  if◌then◌else◌, Result, ok, ◌>>=◌,
}
use activebsp.Store.DataStore.{Bytes}
use activebsp.Message.{Message, ReqPart}
use activebsp.Message.Instruction
use activebsp.Message.Fields.{
  read_int, read_size, read_byte, read_bytes, read_c_string, read_ints, sized,
}

-- The fields of a buffer by their offset. A negative offset is taken for one past the end.
abbrev pub int_at : ℕ → Bytes → Result ℕ
int_at offset buf = read_int (drop offset buf)

abbrev pub size_at : ℕ → Bytes → Result ℕ
size_at offset buf = read_size (drop offset buf)

unfoldable pub read_create_actor : Bytes → Result Message
read_create_actor buf = int_at 4 buf >>= λ name_offset. int_at 8 buf >>= λ pids_offset.
    int_at 12 buf >>= λ pids_length. read_c_string (drop name_offset (drop 16 buf)) >>= λ name.
    sized pids_length (read_ints pids_length (drop pids_offset (drop 16 buf))) >>= λ pids.
    ok (Message.create_actor name pids)

unfoldable pub read_stop_actor : Bytes → Result Message
read_stop_actor buf =
    read_byte (drop 4 buf) >>= λ ask_answer. ok (Message.stop_actor (not (ask_answer == 0)))

unfoldable pub read_call_actor : Bytes → Result Message
read_call_actor buf = int_at 4 buf >>= λ name_offset. int_at 8 buf >>= λ future_key.
    int_at 12 buf >>= λ args_offset. int_at 16 buf >>= λ args_size.
    read_c_string (drop name_offset (drop 20 buf)) >>= λ name.
    sized args_size (read_bytes args_size (drop args_offset (drop 20 buf))) >>= λ args.
    ok (Message.call_actor (record { function_name = name; args = args; future_key = future_key }))

unfoldable pub read_register_future : Bytes → Result Message
read_register_future buf = int_at 4 buf >>= λ key. int_at 8 buf >>= λ data_offset.
    int_at 12 buf >>= λ data_size.
    sized data_size (read_bytes data_size (drop data_offset (drop 16 buf))) >>= λ bytes.
    ok (Message.register_future key bytes)

unfoldable pub read_get_future_data : Bytes → Result Message
read_get_future_data buf = int_at 4 buf >>= λ key. ok (Message.get_future_data key)

unfoldable pub read_release_future : Bytes → Result Message
read_release_future buf = int_at 4 buf >>= λ key. ok (Message.release_future key)

unfoldable pub read_release_result_part : Bytes → Result Message
read_release_result_part buf = int_at 4 buf >>= λ resid. ok (Message.release_result_part resid)

unfoldable pub read_store_result : Bytes → Result Message
read_store_result buf = int_at 4 buf >>= λ resid. size_at 12 buf >>= λ data_size.
    read_bytes data_size (drop 21 buf) >>= λ bytes. ok (Message.store_result resid bytes)

unfoldable pub read_store_result_part : Bytes → Result Message
read_store_result_part buf = int_at 4 buf >>= λ resid. size_at 12 buf >>= λ data_size.
    size_at 20 buf >>= λ offset. size_at 28 buf >>= λ full_data_size.
    read_bytes data_size (drop 36 buf) >>= λ bytes. ok (
      Message.store_result_part
        (record { resid = resid; offset = offset; full_data_size = full_data_size; bytes = bytes }))

-- `getPart` of one part after another, 32 bytes each.
unfoldable pub read_parts : ℕ → Bytes → Result (List ReqPart)
read_parts zero bytes = ok []
read_parts (suc n) bytes = int_at 0 bytes >>= λ resid. size_at 8 bytes >>= λ offset.
    size_at 16 bytes >>= λ size. read_parts n (drop 32 bytes) >>= λ parts.
    ok (record { resid = resid; offset = offset; size = size } ∷ parts)

-- A loop up to a negative bound reads nothing.
unfoldable pub loop_count : ℕ → ℕ
loop_count n = if ltb n int_min then n else 0

unfoldable pub read_get_result_parts : Bytes → Result Message
unfolding read_parts loop_count
read_get_result_parts buf = int_at 4 buf >>= λ nparts. int_at 8 buf >>= λ forward_to.
    read_parts (loop_count nparts) (drop 12 buf) >>= λ parts.
    ok (Message.get_result_parts forward_to parts)

-- The kind of distribution is not looked at.
unfoldable pub read_distribute_vector : Bytes → Result Message
read_distribute_vector buf = size_at 8 buf >>= λ n.
    size_at 16 buf >>= λ elem_size. ok (Message.distribute_vector n elem_size)

unfoldable pub read_prefetch : Bytes → Result Message
read_prefetch buf = int_at 4 buf >>= λ future_pid. int_at 8 buf >>= λ future_key.
    size_at 12 buf >>= λ dv_size. ok (
      Message.prefetch
        (record { future_pid = future_pid; future_key = future_key; dv_size = dv_size }))

-- `getKeys` is `getNpids` numbers after `getPids`.
unfoldable pub read_fetch : Bytes → Result Message
unfolding loop_count
read_fetch buf = size_at 4 buf >>= λ dv_size. int_at 12 buf >>= λ req_key.
    int_at 16 buf >>= λ res_key. int_at 20 buf >>= λ npids.
    read_ints (loop_count npids) (drop 24 buf) >>= λ pids.
    read_ints (loop_count npids) (drop (4 * loop_count npids) (drop 24 buf)) >>= λ keys. ok (
      Message.fetch (record {
        pids = pids;
        keys = keys;
        req_future_key = req_key;
        res_future_key = res_key;
        dv_size = dv_size;
      }))

abbrev pub read_as : Result Message → Result (Option Message)
read_as message = message >>= λ m. ok (some m)

-- The `switch` on the instruction.
unfoldable pub message_of : ℕ → Bytes → Result (Option Message)
message_of n buf =
    if n == Instruction.create_actor
    then read_as (read_create_actor buf)
    else if n == Instruction.call_actor
    then read_as (read_call_actor buf)
    else if n == Instruction.destroy_actor
    then read_as (read_stop_actor buf)
    else if n == Instruction.stop
    then ok (some Message.stop_actor_process)
    else if n == Instruction.register_future_data
    then read_as (read_register_future buf)
    else if n == Instruction.get_future_data
    then read_as (read_get_future_data buf)
    else if n == Instruction.release_future
    then read_as (read_release_future buf)
    else if n == Instruction.get_result_parts
    then read_as (read_get_result_parts buf)
    else if n == Instruction.store_result
    then read_as (read_store_result buf)
    else if n == Instruction.release_result
    then read_as (read_release_result_part buf)
    else if n == Instruction.distribute_vector
    then read_as (read_distribute_vector buf)
    else if n == Instruction.prefetch
    then read_as (read_prefetch buf)
    else if n == Instruction.fetch
    then read_as (read_fetch buf)
    else if n == Instruction.store_result_part
    then read_as (read_store_result_part buf)
    else ok none

-- `createMessage`: none for an instruction that it does not know.
unfoldable pub create_message : Bytes → Result (Option Message)
unfolding message_of
create_message buf = int_at 0 buf >>= λ instruction. message_of instruction buf
