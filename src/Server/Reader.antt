-- ===== src/Server/Reader.antt =====
-- `readStoredResult` of ActiveBSP/src/shmem/SharedMemoryMasterProxy.cpp: the worker's thread reads a
-- part from the store of its process and waits for it with the condition variable. A message that
-- the management thread handles is one step, and so is what the reader does between locking the
-- mutex and giving it back.
pub mod Missing
pub mod Wakeup
use activebsp.Base.{
  ℕ, ◌+◌, ◌≡◌, Bool, true, false, Option, none, some, List, [], ◌∷◌, slice, ltb, to_int, to_size,
  int_add, int_sub, if◌then◌else◌, Result, ok, ◌>>=◌,
}
use activebsp.Pieces.{Chunk}
use activebsp.Store.DataStore.{Bytes, DataStore, get_part_data}
use activebsp.Message.{Message, store_result, store_result_part}
use activebsp.Server.State.{Server}
use activebsp.Server.Fetch.{DvCodec}
use activebsp.Server.Route.{Incoming, handle}
use activebsp.Server.Safety.Messages.{IsProper}

-- Where the reader is: before the mutex, in `pthread_cond_wait`, or back with what it returns and
-- what it copied.
pub data Phase : Type 0 where
  entering : Phase
  waiting : Phase
  finished : ℕ → List Chunk → Phase

-- What the reader asks for: the part's key, and the place, the offset and the size, two `int`s.
pub record Asked : Type 0 where
  pub key : ℕ
  pub dst : ℕ
  pub offset : ℕ
  pub size : ℕ

-- The end of `readStoredResult`, once the part is found.
unfoldable pub read_found : Asked → Bytes → ℕ → Phase
read_found a stored_data stored_data_size =
    let o = to_int a.offset in
    let n = to_int a.size in
    if ltb stored_data_size (to_size (int_add o n))
    then finished (int_sub 0 1) []
    else finished 0 (record { offset = a.dst; bytes = slice o n stored_data } ∷ [])

-- One round of its loop.
unfoldable pub read_round : Asked → DataStore → Result Phase
unfolding read_found
read_round a parts = get_part_data parts a.key >>= λ found. elim found [
  | none ↦ ok waiting
  | some (stored_data, stored_data_size) ↦ ok (read_found a stored_data stored_data_size)
]

-- The messages whose handlers call `pthread_cond_broadcast`.
unfoldable pub broadcasts : Message → Bool
broadcasts (store_result resid bytes) = true
broadcasts (store_result_part msg) = true
broadcasts _ = false

abbrev pub wake : Bool → Phase → Phase
wake true waiting = entering
wake _ phase = phase

-- The steps of the two threads. The key of the reader is one that was given out before, so that a
-- prefetch does not take it for a new part.
pub data Step (codec : DvCodec) (a : Asked) (s : Server) (phase : Phase)
    : Server → Phase → Type 0 where
  handles :
      (m : Incoming) {t : Server}
      → IsProper codec m.gathered m.heard s m.message
      → (a.key ≡ s.next_key → ⊥)
      → (a.key ≡ int_add s.next_key 1 → ⊥)
      → handle codec s m ≡ ok t
      → Step codec a s phase t (wake (broadcasts m.message) phase)
  reads :
      {next : Phase}
      → phase ≡ entering
      → s.locked ≡ false
      → read_round a s.parts ≡ ok next
      → Step codec a s phase s next

pub data Reaches (codec : DvCodec) (a : Asked) (s : Server) : Server → Phase → Type 0 where
  here : Reaches codec a s s entering
  next :
      {t u : Server} {phase phase' : Phase}
      → Reaches codec a s t phase
      → Step codec a t phase u phase'
      → Reaches codec a s u phase'
