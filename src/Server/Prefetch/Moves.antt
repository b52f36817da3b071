-- ===== src/Server/Prefetch/Moves.antt =====
-- A block of a vector from the process that holds it to the process that prefetches it, on two actors
-- with the same number of processes: `handlePrefetchMessage`, `fetchDv` and
-- `handleStoreResultPartMessage` of ActorServer.cpp.
use activebsp.Base.{
  ℕ, ◌+◌, ◌-◌, ◌<◌, ◌≡◌, refl, sym, ap, ap₂, ◌∙◌, arith, none, some, List, [], ◌∷◌, ◌++◌, map, All,
  length, length-replicate, replicate, copy_into_all, assign, ltb, ◌==◌, Bool-cases, inl, inr,
  false, int_min, size_sub, if◌then◌else◌, Result, ok, ◌>>=◌,
}
use activebsp.Distribution.BlockRange.{div_range, block_begin}
use activebsp.Distribution.BlockRange.Bounds.{div_range-block_begin, block_begin_le}
use activebsp.Distribution.VectorDistribution.{Part}
use activebsp.Store.DataStore.{Bytes, get_part_data}
use activebsp.Store.DataStore.Assembly.{
  Holds, add_data-Holds, get_part_data-Holds, prepare_part_vector-Holds,
}
use activebsp.Store.Futures.{take_key}
use activebsp.Message.{StoreResultPartMessage, store_result_part}
use activebsp.Server.State.{Server, IntraComm, actor_message}
use activebsp.Server.Results.{handle_store_result_part, check_dv_part_required}
use activebsp.Server.Fetch.{fetch_blocks}
use activebsp.Server.Fetch.Blocks.{HasData, fetch_blocks_lem}
use activebsp.Server.Fetch.Aligned.{block_size, AreBlocks, chunks, blocks_out-aligned}
use activebsp.Server.Prefetch.{make_room}

-- The chunks of a part, handled one after another.
unfoldable pub handle_chunks : Server → List StoreResultPartMessage → Result Server
handle_chunks s [] = ok s
handle_chunks s (msg ∷ msgs) = handle_store_result_part s msg >>= λ s'. handle_chunks s' msgs

-- The key that the next part gets.
abbrev pub next_part_key : Server → ℕ
next_part_key t = (take_key t.next_key).0

-- The key is free, and nobody asked for it.
pub record IsFreeKey (t : Server) (key : ℕ) : Type 0 where
  pub part : t.parts.dv_parts key ≡ none
  pub vector : t.parts.result_vector_store key ≡ none
  pub asked : t.pending_result_requests key ≡ none

module _ (t : Server) (comm : IntraComm) (n p r : ℕ) (rank : comm.pid ≡ r) (procs : comm.nprocs ≡ p)
    (inside : r < p) (few : p < int_min) (small : n < int_min) (free : t.locked ≡ false)
    (v : IsFreeKey t (next_part_key t)) where
  -- The process has room for its block, all of which is missing.
  make_room_lem :
      (t1 : Server) × (make_room t comm n ≡ ok (next_part_key t, t1))
      × (t1.locked ≡ false)
      × (t1.pending_result_requests ≡ t.pending_result_requests)
      × Holds t1.parts (next_part_key t) (replicate (block_size n p r) 0) (block_size n p r)
  unfolding make_room take_key
  make_room_lem =
      let (up, last) = block_begin_le n p r inside in
      let blocks : div_range n comm.pid comm.nprocs ≡ (block_begin n p r, block_begin n p (r + 1)) =
        ap₂ (div_range n) rank procs ∙ div_range-block_begin n r p inside few small in
      let size : size_sub (block_begin n p (r + 1)) (block_begin n p r) ≡ block_size n p r =
        omega (arith, up, last, small) in
      let (d, prepared, held) =
        prepare_part_vector-Holds t.parts (next_part_key t) (block_size n p r) v.part v.vector in
      (
        record t {
          next_key = (take_key t.next_key).1;
          part_missing = assign (next_part_key t) (block_size n p r) t.part_missing;
          parts = d;
          locked = false;
        },
        rw (blocks, size, free, prepared) refl,
        refl,
        refl,
        held,
      )

not_asked :
    (t : Server) (key : ℕ)
    → t.pending_result_requests key ≡ none
    → check_dv_part_required t key ≡ ok t
unfolding check_dv_part_required
not_asked t key asked = rw (asked, check_dv_part_required) refl

-- The chunks of a block that fill a part which is all missing.
handle_chunks_lem :
    (t : Server) (key n size : ℕ) (bytes : Bytes)
    → t.locked ≡ false
    → t.pending_result_requests key ≡ none
    → Holds t.parts key (replicate size 0) size
    → length bytes ≡ size
    → size < int_min
    → (t' : Server) × (handle_chunks t (
          if size == 0
          then []
          else record { resid = key; offset = 0; full_data_size = n; bytes = bytes } ∷ [])
        ≡ ok t')
      × (t'.locked ≡ false)
      × (get_part_data t'.parts key ≡ ok (if size == 0 then none else some (bytes, size)))
unfolding handle_chunks handle_store_result_part
handle_chunks_lem t key n size bytes free asked held whole small = elim (Bool-cases (size == 0)) [
  | inl empty ↦
      let none_missing : size ≡ 0 = ground (arith, empty) in
      let room = length-replicate {A = ℕ} size 0 in
      (t, rw empty refl, free, get_part_data-Holds held ∙ ground (arith, room, none_missing))
  | inr more ↦
      let room = length-replicate {A = ℕ} size 0 in
      let (d, added, full) =
        add_data-Holds (record { offset = 0; bytes = bytes }) held (ground (arith, more, room))
          (omega (arith, room, small)) (omega (arith, room, whole)) (omega (arith, whole)) in
      let left : size - length bytes ≡ 0 = omega (arith, whole) in
      let copied = copy_into_all (replicate size 0) bytes (whole ∙ sym room) in
      (
        record t { parts = d; locked = false },
        rw more (
            rw (free, added, left)
              (ap (λ r. r >>= λ u. ok u)
                (not_asked (record t { parts = d; locked = false }) key asked))),
        refl,
        get_part_data-Holds full
            ∙ ap₂
                (λ k b.
                  ok (if ltb 0 k then none else if length b == 0 then none else some (b, length b)))
                left copied
            ∙ ap (λ k. ok (if k == 0 then none else some (bytes, k))) whole,
      )
]

module _ (t s : Server) (comm : IntraComm) (n p r resid : ℕ) (bytes : Bytes) (parts : List Part)
    (before after keys_before keys_after : List ℕ) (pid : ℕ) where
  -- A process of rank `r` among `p`, whose mutex is free and whose next key is free and not asked for,
  -- makes room for its block of a vector of `n` bytes, fewer than 2 ^ 31. The process with the block
  -- of the same rank in an actor of `p` processes has its parts and a free mutex, and runs the loop of `fetchDv`
  -- on the processes and the keys of the request, in which `pid` and the new key have place `r`. Both
  -- return; the second process sends nothing for the other places and at most one message to `pid`.
  -- When the first process, in the state in which it made room, has handled what was sent to it, its
  -- mutex is free and its part is available and has the bytes of the block, unless the block is empty:
  -- then nothing is sent, and the part stays one that is not found.
  pub block_moves :
      comm.pid ≡ r
      → comm.nprocs ≡ p
      → r < p
      → p < int_min
      → (small : n < int_min) → t.locked ≡ false
      → IsFreeKey t (next_part_key t)
      → s.locked ≡ false
      → length parts ≡ p
      → AreBlocks s n p r resid small 0 parts
      → All (HasData s) parts
      → (held : get_part_data s.parts resid ≡ ok (some (bytes, block_size n p r)))
      → (whole : length bytes ≡ block_size n p r) → length before ≡ r
      → length keys_before ≡ r
      → length (before ++ (pid ∷ after)) ≡ p
      → length (keys_before ++ (next_part_key t ∷ keys_after)) ≡ p
      → (t1 t2 : Server) × (msgs : List StoreResultPartMessage) × (make_room t comm n
          ≡ ok (next_part_key t, t1))
        × (fetch_blocks s n p 0
              (before ++ (pid ∷ after))
              (keys_before ++ (next_part_key t ∷ keys_after))
              parts
            ≡ ok (record s {
              sent = s.sent ++ map (λ msg. actor_message pid (store_result_part msg)) msgs;
            }))
        × (handle_chunks t1 msgs ≡ ok t2)
        × (t2.locked ≡ false)
        × (get_part_data t2.parts (next_part_key t)
            ≡ ok (if block_size n p r == 0 then none else some (bytes, block_size n p r)))
  block_moves rank procs inside few small free v free_s all blocks stored held whole e e' c c' =
      let (t1, room, free1, asked, empty) =
        make_room_lem t comm n p r rank procs inside few small free v in
      let (up, last) = block_begin_le n p r inside in
      let key = next_part_key t in
      let msgs = chunks s n p r resid small bytes (block_size n p r) held whole key in
      let (t2, handled, free2, there) =
        handle_chunks_lem t1 key n (block_size n p r) bytes free1
          (ap (λ (f : ℕ → _). f key) asked ∙ v.asked) empty whole (omega (arith, last, small)) in
      let fetched =
        fetch_blocks_lem s n p 0 (before ++ (pid ∷ after)) (keys_before ++ (key ∷ keys_after)) parts
          free_s small few (omega (arith, c)) (omega (arith, c, c')) stored
        ∙ ap (λ out. ok (record s { sent = s.sent ++ out }))
            (blocks_out-aligned s n p r resid small bytes (block_size n p r) held whole parts all
              few blocks 0 before after keys_before keys_after pid key (omega (arith, e))
              (omega (arith, e, e')) (omega (arith, c))) in
      (t1, t2, msgs, room, fetched, handled, free2, there)
