-- ===== src/Server/Wire/Transport.antt =====
-- What the loop does with messages that other processes built.
use activebsp.Base.{
  Option, ok-injective, arith, take_all, true, to_int, int_min, ℕ, ◌+◌, ◌≡◌, refl, sym, ap, ◌∙◌,
  inl, inr, none, some, List, [], ◌∷◌, ◌++◌, map, length, drop, ltb, Bool-cases, All, append-nil,
  Result, ok, ◌>>=◌, >>=-eq-ok, fun_ext, if◌then◌else◌,
}
use activebsp.Store.DataStore.{Bytes}
use activebsp.Message.{Message}
use activebsp.Message.Build.{build}
use activebsp.Message.Parse.{create_message}
use activebsp.Message.Fits.{Fits}
use activebsp.Message.RoundTrip.{build-create_message}
use activebsp.Server.State.{Server}
use activebsp.Server.Fetch.{DvCodec}
use activebsp.Server.Route.{Incoming, handle, run, stop_worker}
use activebsp.Server.Wire.{send_actor_message, Packet, fill_recv_buf, receive, run_packets}

-- A message that a process builds in memory that holds something else before.
pub record Outgoing : Type 0 where
  pub memory : ℕ → ℕ
  pub sends : Incoming

abbrev carrying : Outgoing → Bytes → Packet
carrying o bytes = record {
  src = o.sends.src;
  bytes = bytes;
  gathered = o.sends.gathered;
  heard = o.sends.heard;
}

-- The messages as they arrive.
unfoldable pub pack : Outgoing → Result Packet
pack o = build o.memory o.sends.message >>= λ bytes.
    send_actor_message bytes >>= λ sent. ok (carrying o sent)

unfoldable pub pack_all : List Outgoing → Result (List Packet)
unfolding pack
pack_all [] = ok []
pack_all (o ∷ os) = pack o >>= λ p. pack_all os >>= λ ps. ok (p ∷ ps)

-- The contents fit in the fields, and the message is shorter than 2 ^ 31 bytes.
abbrev pub IsSendable : Outgoing → Type 0
IsSendable o =
    Fits o.sends.message
    × ((build o.memory o.sends.message >>= λ bytes. ok (ltb (length bytes) int_min)) ≡ ok true)

abbrev Arrives : Packet → Outgoing → Type 0
Arrives p o = (recv_buf : Bytes) → receive recv_buf p ≡ ok (some o.sends)

abbrev AllArrive : List Packet → List Outgoing → Type 0
AllArrive [] [] = Unit
AllArrive (p ∷ ps) (o ∷ os) = Arrives p o × AllArrive ps os
AllArrive ps os = ⊥

fill_recv_buf-append :
    (recv_buf bytes : Bytes) → (rest : Bytes) × (fill_recv_buf recv_buf bytes ≡ bytes ++ rest)
unfolding fill_recv_buf
fill_recv_buf-append recv_buf bytes = elim (Bool-cases (ltb (length recv_buf) (length bytes))) [
  | inl e ↦ ([], rw (e, append-nil bytes))
  | inr e ↦ (drop (0 + length bytes) recv_buf, rw e)
]

send_actor_message-short :
    (bytes : Bytes) → ltb (length bytes) int_min ≡ true → send_actor_message bytes ≡ ok bytes
unfolding send_actor_message
send_actor_message-short bytes small =
    let size : to_int (length bytes) ≡ length bytes = ground (arith, small) in
    rw (size, small, take_all (length bytes) bytes (omega arith)) refl

-- A message goes to another process: it is built and sent, and read from a buffer that may end in
-- something else.
abbrev pub conveyed : (ℕ → ℕ) → Bytes → Message → Result (Option Message)
conveyed memory rest m =
    build memory m >>= λ bytes. send_actor_message bytes >>= λ sent. create_message (sent ++ rest)

pub conveyed_lem :
    (memory : ℕ → ℕ) (rest : Bytes) (m : Message)
    → Fits m
    → (build memory m >>= λ bytes. ok (ltb (length bytes) int_min)) ≡ ok true
    → conveyed memory rest m ≡ ok (some m)
conveyed_lem memory rest m h short =
    let (bytes, e, read) =
      >>=-eq-ok (build memory m) (λ buf. create_message (buf ++ rest))
        (build-create_message memory rest m h) in
    let small : ltb (length bytes) int_min ≡ true = ok-injective (rw e at short) in
    rw (e, send_actor_message-short bytes small) read

pack_lem : (o : Outgoing) → IsSendable o → (p : Packet) × (pack o ≡ ok p) × Arrives p o
unfolding pack receive
pack_lem o (h, short) =
    let m = o.sends.message in
    let (bytes, e, read) =
      >>=-eq-ok (build o.memory m) (λ buf. create_message (buf ++ []))
        (build-create_message o.memory [] m h) in
    let small : ltb (length bytes) int_min ≡ true = ok-injective (rw e at short) in
    let whole : send_actor_message bytes ≡ ok bytes = send_actor_message-short bytes small in
    (
      carrying o bytes,
      rw (e, whole) refl,
      λ recv_buf.
          let (rest, filled) = fill_recv_buf-append recv_buf bytes in
          let reads : create_message (bytes ++ rest) ≡ ok (some m) =
            sym (ap (λ r. r >>= λ buf. create_message (buf ++ rest)) e)
            ∙ build-create_message o.memory rest m h in
          rw (small, filled, reads) refl,
    )

pack_all_lem :
    (os : List Outgoing)
    → All IsSendable os
    → (ps : List Packet) × (pack_all os ≡ ok ps) × AllArrive ps os
unfolding pack_all
pack_all_lem [] h = ([], refl, tt)
pack_all_lem (o ∷ os) (h, hs) =
    let (p, e, a) = pack_lem o h in
    let (ps, es, later) = pack_all_lem os hs in (p ∷ ps, rw (e, es), (a, later))

module _ (codec : DvCodec) where
  run_packets_lem :
      (s : Server) (recv_buf : Bytes) (ps : List Packet) (os : List Outgoing)
      → AllArrive ps os
      → run_packets codec s recv_buf ps ≡ run codec s (map (λ o. some o.sends) os)
  unfolding run_packets run
  run_packets_lem s recv_buf [] [] h = refl
  run_packets_lem s recv_buf [] (o ∷ os) h = absurd h
  run_packets_lem s recv_buf (p ∷ ps) [] h = absurd h
  run_packets_lem s recv_buf (p ∷ ps) (o ∷ os) (h, hs) =
      let next = fill_recv_buf recv_buf p.bytes in
      rw (h recv_buf) (
        ap
          (λ (rest : Server → Result Server). handle codec s o.sends >>= λ s'.
            let stopped : Result Server = elim s'.worker [
              | none ↦ ok s'
              | some queue ↦ stop_worker s'
            ] in
            if s'.running then rest s' else stopped)
          (fun_ext (λ s'. run_packets_lem s' next ps os hs)))

  -- Messages whose contents fit in their fields, each shorter than 2 ^ 31 bytes, are all built and
  -- sent, and the loop of the process that gets their bytes one after another does what it does on
  -- the messages, whatever its buffer held before.
  pub pack_all-run_packets :
      (s : Server) (recv_buf : Bytes) (os : List Outgoing)
      → All IsSendable os
      → (pack_all os >>= λ ps. run_packets codec s recv_buf ps)
        ≡ run codec s (map (λ o. some o.sends) os)
  pack_all-run_packets s recv_buf os h =
      let (ps, e, a) = pack_all_lem os h in
      ap (λ r. r >>= λ ps. run_packets codec s recv_buf ps) e ∙ run_packets_lem s recv_buf ps os a
