-- ===== src/Message/Instruction.antt =====
-- ActiveBSP/include/actormsg/activebsp_instructions.h: the numbers of `instruction_t`.
use activebsp.Base.{ℕ}

abbrev pub stop : ℕ
stop = 1

abbrev pub create_actor : ℕ
create_actor = 2

abbrev pub destroy_actor : ℕ
destroy_actor = 3

abbrev pub call_actor : ℕ
call_actor = 4

abbrev pub register_future_data : ℕ
register_future_data = 5

abbrev pub get_future_data : ℕ
get_future_data = 6

abbrev pub release_future : ℕ
release_future = 7

abbrev pub store_result : ℕ
store_result = 8

abbrev pub store_result_part : ℕ
store_result_part = 9

abbrev pub release_result : ℕ
release_result = 10

abbrev pub get_result_parts : ℕ
get_result_parts = 11

abbrev pub distribute_vector : ℕ
distribute_vector = 12

abbrev pub prefetch : ℕ
prefetch = 13

abbrev pub fetch : ℕ
fetch = 14
