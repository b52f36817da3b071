-- ===== src/ImageDatabase/Delivery.antt =====
-- What the database relies on in the BSP library's puts: at the next barrier, the puts into a
-- registered buffer are copied into it, each of them and nothing else, in an order that is not known.
use activebsp.Base.{
  ℕ, ◌+◌, ◌≤◌, ◌<◌, ◌≡◌, ◌∙◌, ap, arith, List, [], ◌∷◌, All, Any, inl, inr, length,
}
use activebsp.Pieces.{Chunk, IsPieceOf, Covers, copy_all, copy_all-agree, copy_all-whole}
use activebsp.Store.DataStore.{Bytes}

abbrev pub Within : Bytes → Chunk → Type 0
Within buf c = c.offset + length c.bytes ≤ length buf

pub record Delivers (deliver : List Chunk → Bytes → Bytes) : Type 1 where
  pub order : List Chunk → Bytes → List Chunk
  pub copied :
      (puts : List Chunk) (buf : Bytes)
      → All (Within buf) puts
      → deliver puts buf ≡ copy_all buf (order puts buf)
  pub only :
      (puts : List Chunk) (buf : Bytes) (P : Chunk → Type 0) → All P puts → All P (order puts buf)
  pub each :
      (puts : List Chunk) (buf : Bytes) (P : Chunk → Type 0) → Any P puts → Any P (order puts buf)

abbrev Brings : ℕ → Chunk → Type 0
Brings i c = (c.offset ≤ i) × (i < c.offset + length c.bytes)

Covers-Any : (i : ℕ) (cs : List Chunk) → Covers cs i → Any (Brings i) cs
Covers-Any i [] h = h
Covers-Any i (c ∷ cs) (inl h) = inl h
Covers-Any i (c ∷ cs) (inr h) = inr (Covers-Any i cs h)

Any-Covers : (i : ℕ) (cs : List Chunk) → Any (Brings i) cs → Covers cs i
Any-Covers i [] h = h
Any-Covers i (c ∷ cs) (inl h) = inl h
Any-Covers i (c ∷ cs) (inr h) = inr (Any-Covers i cs h)

IsPieceOf-Within :
    (whole buf : Bytes) (puts : List Chunk)
    → length buf ≡ length whole
    → All (IsPieceOf whole) puts
    → All (Within buf) puts
IsPieceOf-Within whole buf [] e h = tt
IsPieceOf-Within whole buf (c ∷ puts) e (h, hs) =
    (omega (arith, e, h.0), IsPieceOf-Within whole buf puts e hs)

module _ (deliver : List Chunk → Bytes → Bytes) (v : Delivers deliver) (whole buf : Bytes) where
  -- Pieces of a whole leave the size of the buffer.
  pub deliver-length :
      (puts : List Chunk)
      → length buf ≡ length whole
      → All (IsPieceOf whole) puts
      → length (deliver puts buf) ≡ length whole
  deliver-length puts e h =
      ap length (v.copied puts buf (IsPieceOf-Within whole buf puts e h))
      ∙ (copy_all-agree whole buf (v.order puts buf) e (v.only puts buf (IsPieceOf whole) h)).0

  -- Pieces that cover the whole give the whole, in whatever order they are copied.
  pub deliver-whole :
      (puts : List Chunk)
      → length buf ≡ length whole
      → All (IsPieceOf whole) puts
      → ((i : ℕ) → i < length whole → Covers puts i)
      → deliver puts buf ≡ whole
  deliver-whole puts e h covers =
      v.copied puts buf (IsPieceOf-Within whole buf puts e h)
      ∙ copy_all-whole whole buf (v.order puts buf) e (v.only puts buf (IsPieceOf whole) h) (λ i lt.
        Any-Covers i (v.order puts buf)
          (v.each puts buf (Brings i) (Covers-Any i puts (covers i lt))))
