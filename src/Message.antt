-- ===== src/Message.antt =====
-- ActiveBSP/include/actormsg: the messages between processes, each with what its accessors return.
-- The source of a message is given by the communicator beside it. A `std::string` is the list of its
-- bytes. The children model the byte layouts of the messages.
pub mod Instruction
pub mod Fields
pub mod Build
pub mod Parse
pub mod Fits
pub mod RoundTrip
use activebsp.Base.{ℕ, Bool, List}
use activebsp.Store.DataStore.{Bytes}

-- `result_req_part_t` as it is read by the process that is asked.
pub record ReqPart : Type 0 where
  pub resid : ℕ
  pub offset : ℕ
  pub size : ℕ

-- `CallActorMessage`.
pub record CallActorMessage : Type 0 where
  pub function_name : Bytes
  pub args : Bytes
  pub future_key : ℕ

-- `FetchMessage`. `keys` is the second half of its buffer, which the constructor leaves unset.
pub record FetchMessage : Type 0 where
  pub pids : List ℕ
  pub keys : List ℕ
  pub req_future_key : ℕ
  pub res_future_key : ℕ
  pub dv_size : ℕ

-- `PrefetchMessage`.
pub record PrefetchMessage : Type 0 where
  pub future_pid : ℕ
  pub future_key : ℕ
  pub dv_size : ℕ

-- `StoreResultPartMessage`: `bytes` are the `data_size` bytes at `getData`.
pub record StoreResultPartMessage : Type 0 where
  pub resid : ℕ
  pub offset : ℕ
  pub full_data_size : ℕ
  pub bytes : Bytes

-- `instruction_t` with the class that it stands for.
pub data Message : Type 0 where
  stop_actor_process : Message
  create_actor : Bytes → List ℕ → Message
  stop_actor : Bool → Message
  call_actor : CallActorMessage → Message
  register_future : ℕ → Bytes → Message
  get_future_data : ℕ → Message
  release_future : ℕ → Message
  store_result : ℕ → Bytes → Message
  store_result_part : StoreResultPartMessage → Message
  release_result_part : ℕ → Message
  get_result_parts : ℕ → List ReqPart → Message
  distribute_vector : ℕ → ℕ → Message
  prefetch : PrefetchMessage → Message
  fetch : FetchMessage → Message
