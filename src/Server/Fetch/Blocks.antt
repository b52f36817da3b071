-- ===== src/Server/Fetch/Blocks.antt =====
-- What `fetchDv` sends when the parts that the process holds are there.
use activebsp.Base.{
  ℕ, ◌+◌, ◌≤◌, ◌<◌, ◌≡◌, sym, ap, ◌∙◌, inl, inr, true, false, none, some, List, [], ◌∷◌, ◌++◌, map,
  append_assoc, append-nil, arith, All, ok, fault, null_pointer, ◌>>=◌, Bool-cases, drop, not, ◌||◌,
  ◌==◌, length, size_mod, int_min,
}
use activebsp.Distribution.BlockRange.{div_range}
use activebsp.Distribution.BlockRange.Bounds.{div_range-block_begin, block_begin_le}
use activebsp.Distribution.VectorDistribution.{Part, VectorDistribution, all_parts}
use activebsp.Distribution.Ranges.{misses, wanted_size}
use activebsp.Store.DataStore.{Bytes, get_part_data}
use activebsp.Store.Futures.{find_future_data}
use activebsp.Message.{Message, FetchMessage, fetch}
use activebsp.Server.State.{Server, IntraComm, Sent, actor_message, send, is_head, intra_comm}
use activebsp.Server.Fetch.{
  DvCodec, send_to_all, fetch_part, fetch_parts, fetch_blocks, agree_on_dv, fetch_dv,
}
use activebsp.Server.Fetch.Sends.{part_out}

-- A part of this process is available and has the bytes that the distribution says.
abbrev pub HasData : Server → Part → Type 0
HasData s part =
    (part.offset + part.size < size_mod)
    × ((s.pid == part.pid) ≡ true
        → (bytes : Bytes) × (get_part_data s.parts part.resid ≡ ok (some (bytes, part.size)))
          × (length bytes ≡ part.size))

wanted_size-le :
    (ioffset iend : ℕ) (part : Part)
    → ioffset ≤ iend
    → iend < size_mod
    → part.offset + part.size < size_mod
    → misses ioffset iend part ≡ false
    → wanted_size ioffset iend part ≤ part.size
wanted_size-le ioffset iend part h k fits m = ground arith

fetch_part_lem :
    (s : Server) (pid key size ioffset iend : ℕ) (part : Part)
    → s.locked ≡ false
    → ioffset ≤ iend
    → iend < size_mod
    → HasData s part
    → fetch_part s pid key size ioffset iend part
      ≡ ok (record s { sent = s.sent ++ part_out s pid key size ioffset iend part })
unfolding fetch_part
fetch_part_lem s pid key size ioffset iend part free h k (fits, held) =
    elim (Bool-cases (not (s.pid == part.pid) || misses ioffset iend part)) [
      | inl e ↦ rw e (λ i. ok (record s { sent = sym (append-nil s.sent) i }))
      | inr e ↦
          let (bytes, found, whole) = held (ground (arith, e)) in
          let le = wanted_size-le ioffset iend part h k fits (ground (arith, e)) in
          ground (arith, e, found, whole, le)
    ]

-- The messages for one block, and for the blocks from block `i` of `npids` on.
abbrev pub parts_out : Server → ℕ → ℕ → ℕ → ℕ → ℕ → List Part → List Sent
parts_out s pid key size ioffset iend [] = []
parts_out s pid key size ioffset iend (part ∷ parts) =
    part_out s pid key size ioffset iend part ++ parts_out s pid key size ioffset iend parts

abbrev pub blocks_out : Server → ℕ → ℕ → ℕ → List ℕ → List ℕ → List Part → List Sent
blocks_out s size npids i [] keys parts = []
blocks_out s size npids i (pid ∷ pids) [] parts = []
blocks_out s size npids i (pid ∷ pids) (key ∷ keys) parts =
    let r = div_range size i npids in
    parts_out s pid key size r.0 r.1 parts ++ blocks_out s size npids (i + 1) pids keys parts

-- Two sends in a row.
join :
    (s : Server) (a b : List Sent)
    → ok (record s { sent = (s.sent ++ a) ++ b }) ≡ ok (record s { sent = s.sent ++ (a ++ b) })
join s a b i = ok (record s { sent = append_assoc s.sent a b i })

nothing : (s : Server) → ok s ≡ ok (record s { sent = s.sent ++ [] })
nothing s i = ok (record s { sent = sym (append-nil s.sent) i })

fetch_parts_lem :
    (s : Server) (pid key size ioffset iend : ℕ) (parts : List Part)
    → s.locked ≡ false
    → ioffset ≤ iend
    → iend < size_mod
    → All (HasData s) parts
    → fetch_parts s pid key size ioffset iend parts
      ≡ ok (record s { sent = s.sent ++ parts_out s pid key size ioffset iend parts })
unfolding fetch_parts
fetch_parts_lem s pid key size ioffset iend [] free h k held = nothing s
fetch_parts_lem s pid key size ioffset iend (part ∷ parts) free h k (first, rest) =
    let out = part_out s pid key size ioffset iend part in
    let next : Server = record s { sent = s.sent ++ out } in
    ap (λ r. r >>= λ t. fetch_parts t pid key size ioffset iend parts)
      (fetch_part_lem s pid key size ioffset iend part free h k first)
    ∙ (fetch_parts_lem next pid key size ioffset iend parts free h k rest
        ∙ join s out (parts_out s pid key size ioffset iend parts))

pub fetch_blocks_lem :
    (s : Server) (size npids i : ℕ) (pids keys : List ℕ) (parts : List Part)
    → s.locked ≡ false
    → size < int_min
    → npids < int_min
    → i + length pids ≡ npids
    → length pids ≤ length keys
    → All (HasData s) parts
    → fetch_blocks s size npids i pids keys parts
      ≡ ok (record s { sent = s.sent ++ blocks_out s size npids i pids keys parts })
unfolding fetch_blocks
fetch_blocks_lem s size npids i [] keys parts free small many count enough held = nothing s
fetch_blocks_lem s size npids i (pid ∷ pids) [] parts free small many count enough held =
    absurd (omega arith)
fetch_blocks_lem s size npids i (pid ∷ pids) (key ∷ keys) parts free small many count enough held =
    let r = div_range size i npids in
    let exact = div_range-block_begin size i npids (omega arith) many small in
    let (up, top) = block_begin_le size npids i (omega arith) in
    let up_r : r.0 ≤ r.1 = rw exact up in
    let top_r : r.1 < size_mod = rw exact (omega (arith, top)) in
    let out = parts_out s pid key size r.0 r.1 parts in
    let next : Server = record s { sent = s.sent ++ out } in
    ap (λ x. x >>= λ t. fetch_blocks t size npids (i + 1) pids keys parts)
      (fetch_parts_lem s pid key size r.0 r.1 parts free up_r top_r held)
    ∙ (fetch_blocks_lem next size npids (i + 1) pids keys parts free small many (omega arith)
          (omega arith) held
        ∙ join s out (blocks_out s size npids (i + 1) pids keys parts))

send_to_all_lem :
    (s : Server) (pids : List ℕ) (m : Message)
    → ok (send_to_all s pids m)
      ≡ ok (record s { sent = s.sent ++ map (λ pid. actor_message pid m) pids })
send_to_all_lem s [] m = nothing s
send_to_all_lem s (pid ∷ pids) m =
    send_to_all_lem (send s (actor_message pid m)) pids m
    ∙ join s (actor_message pid m ∷ []) (map (λ pid. actor_message pid m) pids)

module _ (codec : DvCodec) (heard : VectorDistribution) (s : Server) (msg : FetchMessage)
    (comm : IntraComm) (inside : s.intra ≡ some comm) (free : s.locked ≡ false)
    (small : msg.dv_size < int_min) (many : length msg.pids < int_min)
    (enough : length msg.pids ≤ length msg.keys) where
  agreed : fetch_dv codec heard s msg ≡ (
      agree_on_dv codec heard s msg comm >>= λ (dv, t).
      fetch_blocks t msg.dv_size (length msg.pids) 0 msg.pids msg.keys (all_parts dv))
  unfolding fetch_dv
  agreed =
      let found : intra_comm s ≡ ok comm =
        ap (λ o. elim o [ none ↦ fault null_pointer | some c ↦ ok c ]) inside in
      ap
        (λ r. r >>= λ c. agree_on_dv codec heard s msg c >>= λ (dv, t).
          fetch_blocks t msg.dv_size (length msg.pids) 0 msg.pids msg.keys (all_parts dv))
        found

  -- On a process that is not the head of its actor, with the mutex free, for a vector of fewer than
  -- 2 ^ 31 bytes and as many keys as processes: where the parts of the distribution that the process
  -- hears of and is to hold are there with their sizes, `fetchDv` returns, and all it does is to send
  -- for each block and each of these parts that meets it one message. The message is for the
  -- process and the key of the block and holds, with offset 0, as many of the part's first bytes as
  -- the block and the part share.
  pub fetch_dv_lem :
      is_head comm ≡ false
      → All (HasData s) (all_parts heard)
      → fetch_dv codec heard s msg
        ≡ ok (record s {
          sent =
              s.sent
              ++ blocks_out s msg.dv_size (length msg.pids) 0 msg.pids msg.keys (all_parts heard);
        })
  unfolding agree_on_dv
  fetch_dv_lem other held =
      agreed
      ∙ rw other (
          fetch_blocks_lem s msg.dv_size (length msg.pids) 0 msg.pids msg.keys (all_parts heard)
            free small many (omega arith) enough held)

  -- Under the same conditions on the mutex, the vector and the keys, and where the parts of the
  -- distribution that the future holds are there, the head of the actor forwards the request to the
  -- other processes first and then sends its own parts in the same way.
  pub fetch_dv-head :
      (bytes : Bytes)
      → is_head comm ≡ true
      → find_future_data s.future_data_store msg.req_future_key ≡ some bytes
      → All (HasData s) (all_parts (codec.deserialize bytes))
      → fetch_dv codec heard s msg
        ≡ ok (record s {
          sent =
              s.sent
              ++ (map (λ pid. actor_message pid (fetch msg)) (drop 1 s.pids)
                  ++ blocks_out s msg.dv_size
                      (length msg.pids)
                      0
                      msg.pids
                      msg.keys
                      (all_parts (codec.deserialize bytes)));
        })
  unfolding agree_on_dv
  fetch_dv-head bytes head found held =
      let parts = all_parts (codec.deserialize bytes) in
      let out = map (λ pid. actor_message pid (fetch msg)) (drop 1 s.pids) in
      let next : Server = record s { sent = s.sent ++ out } in
      agreed
      ∙ rw (head, found)
          (ap
              (λ r.
                r >>= λ t. fetch_blocks t msg.dv_size (length msg.pids) 0 msg.pids msg.keys parts)
              (send_to_all_lem s (drop 1 s.pids) (fetch msg))
            ∙ (fetch_blocks_lem next msg.dv_size (length msg.pids) 0 msg.pids msg.keys parts free
                  small many (omega arith) enough held
                ∙ join s out
                    (blocks_out s msg.dv_size (length msg.pids) 0 msg.pids msg.keys parts)))
