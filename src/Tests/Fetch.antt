-- ===== src/Tests/Fetch.antt =====
-- The sending of the parts at concrete inputs.
use activebsp.Base.{◌≡◌, refl, ◌++◌, [], ◌∷◌, arith, some, ok, All}
use activebsp.Distribution.VectorDistribution.{VectorDistribution}
use activebsp.Store.DataStore.{get_part_data}
use activebsp.Message.{FetchMessage}
use activebsp.Server.State.{Server, start}
use activebsp.Server.Fetch.{DvCodec, fetch_dv}
use activebsp.Server.Fetch.Blocks.{HasData, blocks_out, fetch_dv_lem}
use activebsp.Tests.Results.{owner}

-- A vector of five bytes: the last three are the part that process 1 holds.
abbrev five_bytes : VectorDistribution
five_bytes = record {
  nelem = 2;
  parts =
      record { pid = 0; resid = 9; size = 2; offset = 0 }
      ∷ record { pid = 1; resid = 9; size = 3; offset = 2 }
      ∷ [];
}

abbrev only_five : DvCodec
only_five = record { serialize = λ dv. []; deserialize = λ bytes. five_bytes }

-- The second process of the actor.
abbrev slave : Server
slave = record owner { intra = some (record { pid = 1; nprocs = 2 }) }

abbrev to_two : FetchMessage
to_two = record {
  pids = 6 ∷ 7 ∷ [];
  keys = 20 ∷ 21 ∷ [];
  req_future_key = 3;
  res_future_key = 4;
  dv_size = 5;
}

slave-HasData : All (HasData slave) five_bytes.parts
unfolding start get_part_data
slave-HasData = (
  (omega arith, λ same. absurd (ground arith)),
  ((omega arith, λ same. (5 ∷ 6 ∷ 7 ∷ [], refl, refl)), tt),
)

fetch_dv_lem_example :
    fetch_dv only_five five_bytes slave to_two
    ≡ ok (record slave {
      sent = slave.sent ++ blocks_out slave 5 2 0 (6 ∷ 7 ∷ []) (20 ∷ 21 ∷ []) five_bytes.parts;
    })
unfolding start
fetch_dv_lem_example =
    fetch_dv_lem only_five five_bytes slave to_two (record { pid = 1; nprocs = 2 }) refl refl
      (omega arith) (omega arith) (omega arith) refl slave-HasData
