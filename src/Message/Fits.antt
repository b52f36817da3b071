-- ===== src/Message/Fits.antt =====
-- What the fields of ActiveBSP/include/actormsg/*.h can carry: the numbers and the lengths that are
-- kept whole, and names without a zero.
use activebsp.Base.{◌+◌, ◌*◌, ◌<◌, ◌≡◌, length, All, int_min}
use activebsp.Message.{Message, ReqPart}
use activebsp.Message.Fields.{IsInt, IsSize, IsChar}

unfoldable pub IsPart : ReqPart → Type 0
IsPart part = IsInt part.resid × IsSize part.offset × IsSize part.size

-- What fits in the fields that carry a message.
unfoldable pub Fits : Message → Type 0
unfolding IsPart
Fits Message.stop_actor_process = Unit
Fits (Message.create_actor name pids) =
    All IsChar name × (16 + (length name + 1) + 4 * length pids < int_min) × All IsInt pids
Fits (Message.stop_actor ask_answer) = Unit
Fits (Message.call_actor m) =
    All IsChar m.function_name
    × (length m.function_name + 1 < int_min)
    × (length m.args < int_min)
    × IsInt m.future_key
Fits (Message.register_future key bytes) = IsInt key × (length bytes < int_min)
Fits (Message.get_future_data key) = IsInt key
Fits (Message.release_future key) = IsInt key
Fits (Message.store_result resid bytes) = IsInt resid × IsSize (length bytes)
Fits (Message.store_result_part m) =
    IsInt m.resid × IsSize m.offset × IsSize m.full_data_size × IsSize (length m.bytes)
Fits (Message.release_result_part resid) = IsInt resid
Fits (Message.get_result_parts to parts) = IsInt to × (length parts < int_min) × All IsPart parts
Fits (Message.distribute_vector n elem_size) = IsSize n × IsSize elem_size
Fits (Message.prefetch m) = IsInt m.future_pid × IsInt m.future_key × IsSize m.dv_size
Fits (Message.fetch m) =
    (length m.pids < int_min)
    × (length m.keys ≡ length m.pids)
    × All IsInt m.pids
    × All IsInt m.keys
    × IsInt m.req_future_key
    × IsInt m.res_future_key
    × IsSize m.dv_size
