-- ===== src/Message/RoundTrip/Arrays.antt =====
-- The messages that end in an array: the parts of a request, and the processes and keys of a fetch.
use activebsp.Base.{
  ℕ, ◌+◌, ◌*◌, ◌<◌, ◌≡◌, refl, subst, ap, ◌∙◌, arith, some, List, [], ◌∷◌, ◌++◌, length, All,
  int_min, to_int, ok, append_assoc, copy_into-append,
}
use activebsp.Store.DataStore.{Bytes}
use activebsp.Message.{Message, ReqPart, FetchMessage}
use activebsp.Message.Instruction
use activebsp.Message.Fields.{
  int_bytes_join, size_bytes_join, int_bytes, drop-ints_bytes, size_bytes, unset, read_ints,
  read_ints-bytes, ints_bytes, length-ints_bytes,
}
use activebsp.Message.Build.{
  get_result_parts_message, parts_bytes, fetch_message, filled_fetch_message,
}
use activebsp.Message.Parse.{
  read_fetch, read_get_result_parts, create_message, read_parts, loop_count,
}
use activebsp.Message.Fits.{Fits, IsPart}

loop_count-to_int : (n : ℕ) → n < int_min → loop_count (to_int n) ≡ n
unfolding loop_count
loop_count-to_int n h = ground arith

module _ (memory : ℕ → ℕ) (rest : Bytes) where
  read_parts-bytes :
      (at : ℕ) (parts : List ReqPart)
      → All IsPart parts
      → read_parts (length parts) (parts_bytes memory at parts ++ rest) ≡ ok parts
  unfolding parts_bytes read_parts IsPart
  read_parts-bytes at [] h = refl
  read_parts-bytes at (part ∷ parts) ((r, o, s), h) = rw (
    int_bytes_join part.resid r,
    size_bytes_join part.offset o,
    size_bytes_join part.size s,
    read_parts-bytes (at + 32) parts h,
  )

  pub get_result_parts_read :
      (to : ℕ) (parts : List ReqPart)
      → Fits (Message.get_result_parts to parts)
      → create_message (get_result_parts_message memory to parts ++ rest)
        ≡ ok (some (Message.get_result_parts to parts))
  unfolding get_result_parts_message create_message read_get_result_parts Fits
  get_result_parts_read to parts (t, fits, h) = rw (
    int_bytes_join (to_int (length parts)) (omega arith),
    int_bytes_join to t,
    loop_count-to_int (length parts) fits,
    read_parts-bytes 12 parts h,
  )

  -- What the keys are written over is the end of the buffer.
  filled_fetch_message_lem :
      (f : FetchMessage)
      → (tail : Bytes) × (filled_fetch_message memory f
          ≡ int_bytes Instruction.fetch
            ++ (size_bytes f.dv_size
                ++ (int_bytes f.req_future_key
                    ++ (int_bytes f.res_future_key
                        ++ (int_bytes (to_int (length f.pids))
                            ++ (ints_bytes f.pids ++ (ints_bytes f.keys ++ tail)))))))
  unfolding filled_fetch_message fetch_message
  filled_fetch_message_lem f =
      let before =
        int_bytes Instruction.fetch
        ++ (size_bytes f.dv_size
            ++ (int_bytes f.req_future_key
                ++ (int_bytes f.res_future_key
                    ++ (int_bytes (to_int (length f.pids)) ++ ints_bytes f.pids)))) in
      let after = unset memory (24 + 4 * length f.pids) (4 * length f.pids + 4) in
      (
        _,
        copy_into-append before after (ints_bytes f.keys) (24 + 4 * length f.pids)
            (omega (arith, length-ints_bytes f.pids)),
      )

  pub fetch_read :
      (f : FetchMessage)
      → Fits (Message.fetch f)
      → create_message (filled_fetch_message memory f ++ rest) ≡ ok (some (Message.fetch f))
  unfolding create_message read_fetch Fits
  fetch_read f (short, same, p, k, q, r, d) =
      let (tail, e) = filled_fetch_message_lem f in
      ap (λ buf. create_message (buf ++ rest)) e
      ∙ rw (
        size_bytes_join f.dv_size d,
        int_bytes_join f.req_future_key q,
        int_bytes_join f.res_future_key r,
        int_bytes_join (to_int (length f.pids)) (omega arith),
        loop_count-to_int (length f.pids) short,
        append_assoc (ints_bytes f.pids) (ints_bytes f.keys ++ tail) rest,
        append_assoc (ints_bytes f.keys) tail rest,
        read_ints-bytes f.pids (ints_bytes f.keys ++ (tail ++ rest)) p,
        drop-ints_bytes f.pids (ints_bytes f.keys ++ (tail ++ rest)),
        subst (λ n. read_ints n (ints_bytes f.keys ++ (tail ++ rest)) ≡ ok f.keys) same
            (read_ints-bytes f.keys (tail ++ rest) k),
      )
