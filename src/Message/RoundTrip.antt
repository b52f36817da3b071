-- ===== src/Message/RoundTrip.antt =====
-- The layouts of Message/Build read back by Message/Parse, one kind of message at a time.
mod Arrays
use activebsp.Base.{
  ℕ, suc, ◌+◌, ◌*◌, ◌<◌, ◌≡◌, refl, none, ◌⊎◌, subst, sym, ap, ap₂, ◌∙◌, arith, Bool, true, false,
  Option, some, List, [], ◌∷◌, ◌++◌, length, take, drop, ltb, lt→ltb, All, if◌then◌else◌, int_min,
  int_mod, to_int, Result, ok, ◌>>=◌, length-append, append_assoc, copy_into-append,
}
use activebsp.Store.DataStore.{Bytes}
use activebsp.Message
use activebsp.Message.{
  Message, ReqPart, CallActorMessage, FetchMessage, PrefetchMessage, StoreResultPartMessage,
}
use activebsp.Message.Instruction
use activebsp.Message.Fields.{
  IsInt, IsSize, IsChar, int_bytes_join, size_bytes_join, int_bytes, drop-ints_bytes, size_bytes,
  unset, int_sized, int_sized_lem, int_sized-string, read_int, read_bytes, read_ints, sized,
  read_c_string, read_c_string-bytes, read_bytes-append, read_ints-bytes, sized-ints, sized-bytes,
  drop-string, ints_bytes, length-ints_bytes,
}
use activebsp.Message.Build.{
  stop_actor_process_message, stop_actor_message, get_future_data_message, release_future_message,
  release_result_part_message, create_actor_message, call_actor_message, register_future_message,
  store_result_message, store_result_part_message, distribute_vector_message, distr_block,
  prefetch_message, get_result_parts_message, parts_bytes, fetch_message, filled_fetch_message,
  build,
}
use activebsp.Message.Parse.{
  read_call_actor, read_create_actor, read_distribute_vector, read_fetch, read_get_future_data,
  read_get_result_parts, read_prefetch, read_register_future, read_release_future,
  read_release_result_part, read_stop_actor, read_store_result, read_store_result_part,
  create_message, read_parts, loop_count,
}
use activebsp.Message.Fits.{Fits}
use activebsp.Message.RoundTrip.Arrays.{fetch_read, get_result_parts_read}

module _ (rest : Bytes) where
  create_actor_read :
      (name : Bytes) (pids : List ℕ)
      → Fits (Message.create_actor name pids)
      → (create_actor_message name pids >>= λ buf. create_message (buf ++ rest))
        ≡ ok (some (Message.create_actor name pids))
  unfolding create_actor_message create_message read_create_actor Fits
  create_actor_read name pids (chars, fits, h) =
      let short : length name + 1 < int_min = omega (arith, fits) in
      let room : ltb (16 + (length name + 1) + 4 * length pids) int_min ≡ true =
        ground (arith, fits) in
      rw (
        room,
        int_sized-string name short,
        int_sized_lem (ints_bytes pids) (omega (arith, length-ints_bytes pids, fits)),
        int_bytes_join (to_int (length name + 1)) (omega arith),
        int_bytes_join (to_int (length pids)) (omega arith),
        read_c_string-bytes name (ints_bytes pids) rest chars,
        drop-string name (ints_bytes pids) rest short,
        sized-ints pids rest (omega arith) h,
      )

  call_actor_read :
      (m : CallActorMessage)
      → Fits (Message.call_actor m)
      → (call_actor_message m.function_name m.args m.future_key >>= λ buf.
          create_message (buf ++ rest))
        ≡ ok (some (Message.call_actor m))
  unfolding call_actor_message create_message read_call_actor Fits
  call_actor_read m (chars, short, fits, h) = rw (
    int_sized-string m.function_name short,
    int_sized_lem m.args fits,
    int_bytes_join m.future_key h,
    int_bytes_join (to_int (length m.function_name + 1)) (omega arith),
    int_bytes_join (to_int (length m.args)) (omega arith),
    read_c_string-bytes m.function_name m.args rest chars,
    drop-string m.function_name m.args rest short,
    sized-bytes m.args rest fits,
  )

  register_future_read :
      (key : ℕ) (bytes : Bytes)
      → Fits (Message.register_future key bytes)
      → (register_future_message key bytes >>= λ buf. create_message (buf ++ rest))
        ≡ ok (some (Message.register_future key bytes))
  unfolding register_future_message create_message read_register_future Fits
  register_future_read key bytes (h, fits) = rw (
    int_sized_lem bytes fits,
    int_bytes_join key h,
    int_bytes_join (to_int (length bytes)) (omega arith),
    sized-bytes bytes rest fits,
  )

  store_result_read :
      (memory : ℕ → ℕ) (resid : ℕ) (bytes : Bytes)
      → Fits (Message.store_result resid bytes)
      → create_message (store_result_message memory resid bytes ++ rest)
        ≡ ok (some (Message.store_result resid bytes))
  unfolding store_result_message create_message read_store_result Fits
  store_result_read memory resid bytes (h, fits) = rw (
    int_bytes_join resid h,
    size_bytes_join (length bytes) fits,
    append_assoc bytes (unset memory (21 + length bytes) 7) rest,
    read_bytes-append bytes (unset memory (21 + length bytes) 7 ++ rest),
  )

  store_result_part_read :
      (memory : ℕ → ℕ) (m : StoreResultPartMessage)
      → Fits (Message.store_result_part m)
      → create_message
          (store_result_part_message memory m.resid m.bytes m.offset m.full_data_size ++ rest)
        ≡ ok (some (Message.store_result_part m))
  unfolding store_result_part_message create_message read_store_result_part Fits
  store_result_part_read memory m (h, o, f, fits) = rw (
    int_bytes_join m.resid h,
    size_bytes_join (length m.bytes) fits,
    size_bytes_join m.offset o,
    size_bytes_join m.full_data_size f,
    read_bytes-append m.bytes rest,
  )

  distribute_vector_read :
      (n elem_size : ℕ)
      → Fits (Message.distribute_vector n elem_size)
      → create_message (distribute_vector_message distr_block n elem_size ++ rest)
        ≡ ok (some (Message.distribute_vector n elem_size))
  unfolding distribute_vector_message create_message read_distribute_vector Fits
  distribute_vector_read n elem_size (h, k) = rw (size_bytes_join n h, size_bytes_join elem_size k)

  prefetch_read :
      (m : PrefetchMessage)
      → Fits (Message.prefetch m)
      → create_message (prefetch_message m.future_pid m.future_key m.dv_size ++ rest)
        ≡ ok (some (Message.prefetch m))
  unfolding prefetch_message create_message read_prefetch Fits
  prefetch_read m (p, k, d) =
      rw (int_bytes_join m.future_pid p, int_bytes_join m.future_key k, size_bytes_join m.dv_size d)

module _ (memory : ℕ → ℕ) (rest : Bytes) where
  -- A message whose contents fit in their fields is built without a fault, and a process that gets
  -- the buffer, whatever follows in it, reads the same message back.
  pub build-create_message :
      (m : Message)
      → Fits m
      → (build memory m >>= λ buf. create_message (buf ++ rest)) ≡ ok (some m)
  unfolding build create_message read_stop_actor read_get_future_data read_release_future
      read_release_result_part Fits stop_actor_process_message stop_actor_message
      get_future_data_message release_future_message release_result_part_message
  build-create_message Message.stop_actor_process h = refl
  build-create_message (Message.create_actor name pids) h = create_actor_read rest name pids h
  build-create_message (Message.stop_actor true) h = refl
  build-create_message (Message.stop_actor false) h = refl
  build-create_message (Message.call_actor m) h = call_actor_read rest m h
  build-create_message (Message.register_future key bytes) h = register_future_read rest key bytes h
  build-create_message (Message.get_future_data key) h = rw (int_bytes_join key h)
  build-create_message (Message.release_future key) h = rw (int_bytes_join key h)
  build-create_message (Message.store_result resid bytes) h =
      store_result_read rest memory resid bytes h
  build-create_message (Message.store_result_part m) h = store_result_part_read rest memory m h
  build-create_message (Message.release_result_part resid) h = rw (int_bytes_join resid h)
  build-create_message (Message.get_result_parts to parts) h =
      get_result_parts_read memory rest to parts h
  build-create_message (Message.distribute_vector n elem_size) h =
      distribute_vector_read rest n elem_size h
  build-create_message (Message.prefetch m) h = prefetch_read rest m h
  build-create_message (Message.fetch f) h = fetch_read memory rest f h
