-- ===== src/Tests/Prefetch.antt =====
-- A block that is prefetched, at concrete inputs.
use activebsp.Base.{
  ◌≡◌, refl, List, [], ◌∷◌, ◌++◌, map, arith, some, All, ok, false, assign, empty_map, int_min, ◌<◌,
}
use activebsp.Distribution.VectorDistribution.{Part}
use activebsp.Store.DataStore.{data_store, vector_store, get_part_data}
use activebsp.Store.Futures.{take_key}
use activebsp.Message.{StoreResultPartMessage, store_result_part}
use activebsp.Server.State.{Server, IntraComm, start, actor_message}
use activebsp.Server.Fetch.{fetch_blocks}
use activebsp.Server.Fetch.Blocks.{HasData}
use activebsp.Server.Fetch.Aligned.{AreBlocks}
use activebsp.Server.Prefetch.{make_room}
use activebsp.Server.Prefetch.Moves.{handle_chunks, IsFreeKey, next_part_key, block_moves}

-- The last two bytes of five, on process 1.
abbrev holder : Server
holder = record (start 1) {
  parts = record {
    result_vector_store = assign 9 (6 ∷ 7 ∷ []) empty_map;
    result_msg_store = empty_map;
    dv_parts =
        assign 9 (record { key = 9; size = 2; location = vector_store; remaining_bytes = 0 })
          empty_map;
  };
}

abbrev two_blocks : List Part
two_blocks =
    record { pid = 0; resid = 9; size = 3; offset = 0 }
    ∷ record { pid = 1; resid = 9; size = 2; offset = 3 }
    ∷ []

abbrev second : IntraComm
second = record { pid = 1; nprocs = 2 }

five-small : 5 < int_min
five-small = omega arith

holder-AreBlocks : AreBlocks holder 5 2 1 9 five-small 0 two_blocks
unfolding start
holder-AreBlocks = (refl, refl, refl, λ e. refl, (refl, refl, refl, λ e. refl, tt))

holder-HasData : All (HasData holder) two_blocks
unfolding start get_part_data
holder-HasData = (
  (omega arith, λ same. absurd (ground arith)),
  ((omega arith, λ same. (6 ∷ 7 ∷ [], refl, refl)), tt),
)

fresh-IsFreeKey : IsFreeKey (start 7) (next_part_key (start 7))
unfolding start data_store take_key
fresh-IsFreeKey = record { part = refl; vector = refl; asked = refl }

block_moves_example :
    (t1 t2 : Server) × (msgs : List StoreResultPartMessage) × (make_room (start 7) second 5
      ≡ ok (next_part_key (start 7), t1))
    × (fetch_blocks holder 5 2 0 (6 ∷ 7 ∷ []) (20 ∷ next_part_key (start 7) ∷ []) two_blocks
        ≡ ok (record holder {
          sent = holder.sent ++ map (λ msg. actor_message 7 (store_result_part msg)) msgs;
        }))
    × (handle_chunks t1 msgs ≡ ok t2)
    × (t2.locked ≡ false)
    × (get_part_data t2.parts (next_part_key (start 7)) ≡ ok (some (6 ∷ 7 ∷ [], 2)))
unfolding start get_part_data
block_moves_example =
    block_moves (start 7) holder second 5 2 1 9 (6 ∷ 7 ∷ []) two_blocks (6 ∷ []) [] (20 ∷ []) [] 7
      refl refl (omega arith) (omega arith) five-small refl fresh-IsFreeKey refl refl
      holder-AreBlocks holder-HasData refl refl refl refl refl refl
