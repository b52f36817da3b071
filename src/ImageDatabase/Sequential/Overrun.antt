-- ===== src/ImageDatabase/Sequential/Overrun.antt =====
-- That `insertSeq` makes its process send more bytes than its part has.
use activebsp.Base.{
  ℕ, zero, suc, ◌+◌, ◌-◌, ◌/◌, ◌<◌, ◌≡◌, refl, sym, ap, ap₂, ◌∙◌, arith, ◌==◌, List, [], ◌∷◌,
  length, take_all, ltb, true, false, int_min, size_add, size_sub, ok, fault, out_of_bounds, ◌>>=◌,
}
use activebsp.Pieces.{Chunk}
use activebsp.Store.DataStore.{Bytes}
use activebsp.Distribution.BlockRange.{div_range, block_begin}
use activebsp.Distribution.BlockRange.Bounds.{
  div_range-block_begin, block_begin_le, block_begin_ends, mul_le,
}
use native.Mathlib.Nat.{div-add-mod}
use activebsp.ImageDatabase.{Member, each_process, puts_to, put_part, share_hashes, gather_parts}
use activebsp.ImageDatabase.Slots.{IsRoomy}
use activebsp.ImageDatabase.Delivery.{Delivers, deliver-length}
use activebsp.ImageDatabase.Represents.{size_at, part_at, Represents}
use activebsp.ImageDatabase.Gathering.{length-part_at}
use activebsp.ImageDatabase.Sequential.{seq_puts, bsp_insert_seq, insert_seq}

module _ (n p : ℕ) (img : Bytes) (sized : length img ≡ n) (few : p < int_min)
    (small : n < int_min) where
  -- The puts of the parts of the processes from `i` on.
  abbrev seq_sends : ℕ → ℕ → List (ℕ × Chunk)
  seq_sends i zero = []
  seq_sends i (suc left) =
      (i, record { offset = 0; bytes = part_at n p i img }) ∷ seq_sends (suc i) left

  seq_puts-step :
      (m : Member) (i left : ℕ)
      → m.full_size ≡ n
      → m.nprocs ≡ p
      → i < p
      → seq_puts img m i (suc left) ≡ (
          seq_puts img
            (record m { part_size = size_sub (block_begin n p (i + 1)) m.part_offset })
            (suc i)
            left
          >>= λ done. ok (done.0, (i, record { offset = 0; bytes = part_at n p i img }) ∷ done.1))
  unfolding seq_puts
  seq_puts-step m i left e e' h =
      let blocks : div_range m.full_size i m.nprocs ≡ (block_begin n p i, block_begin n p (i + 1)) =
        ap₂ (λ a b. div_range a i b) e e' ∙ div_range-block_begin n i p h few small in
      let (up, last) = block_begin_le n p i h in
      let size : size_sub (block_begin n p (i + 1)) (block_begin n p i) ≡ size_at n p i =
        omega (arith, up, last, small) in
      let fits : ltb (length img) (size_add (block_begin n p i) (size_at n p i)) ≡ false =
        ground (arith, up, last, sized, small) in
      rw (blocks, size, fits) refl

  -- The loop leaves the size of the whole image as the size of the part.
  seq_puts_lem :
      (m : Member) (i left : ℕ)
      → m.full_size ≡ n
      → m.nprocs ≡ p
      → m.part_offset ≡ 0
      → i + suc left ≡ p
      → seq_puts img m i (suc left) ≡ ok (record m { part_size = n }, seq_sends i (suc left))
  unfolding seq_puts
  seq_puts_lem m i zero e e' first h =
      let at_end : i + 1 ≡ p = omega arith in
      let end = ap (block_begin n p) at_end ∙ (block_begin_ends n p (omega arith)).1 in
      let size : size_sub (block_begin n p (i + 1)) m.part_offset ≡ n =
        ap₂ size_sub end first ∙ omega (arith, small) in
      seq_puts-step m i zero e e' (omega arith)
      ∙ ap (λ k. ok (record m { part_size = k }, seq_sends i (suc zero))) size
  seq_puts_lem m i (suc left) e e' first h =
      let next = size_sub (block_begin n p (i + 1)) m.part_offset in
      seq_puts-step m i (suc left) e e' (omega arith)
      ∙ ap
          (λ r. r >>= λ done.
            ok (done.0, (i, record { offset = 0; bytes = part_at n p i img }) ∷ done.1))
          (seq_puts_lem (record m { part_size = next }) (suc i) left e e' first (omega arith))

  puts_to-seq_sends : (i left : ℕ) → 0 < i → puts_to 0 (seq_sends i left) ≡ []
  unfolding puts_to
  puts_to-seq_sends i zero h = refl
  puts_to-seq_sends i (suc left) h =
      let other : (i == 0) ≡ false = ground arith in
      rw other (puts_to-seq_sends (suc i) left (omega arith))

  -- Two processes or more have parts that are shorter than an image of two bytes or more.
  size_at-lt : 1 < p → 1 < n → size_at n p 0 < n
  size_at-lt hp hn =
      let whole = div-add-mod n p in
      let twice = mul_le 2 p (n / p) (omega arith) in omega (arith, whole, twice)

module _ (hash_part : Bytes → ℕ) (hash_procs : Bytes → ℕ) (deliver : List Chunk → Bytes → Bytes)
    (n p : ℕ) (roomy : IsRoomy p) (v : Delivers deliver) where
  -- On two processes or more, with images of two bytes or more, the insertion of an image by
  -- `insertSeq` ends in a read past the end of the first process's part, whatever the database holds.
  pub insert_seq_overruns :
      (imgs : List Bytes) (m : Member) (others : List Member) (img : Bytes)
      → 1 < p
      → 1 < n
      → n < int_min
      → Represents hash_part hash_procs n p imgs 0 m
      → length img ≡ n
      → insert_seq hash_part hash_procs deliver img (m ∷ others) ≡ fault out_of_bounds
  unfolding insert_seq bsp_insert_seq gather_parts share_hashes each_process put_part puts_to
  insert_seq_overruns imgs m others img hp hn small r sized =
      let begin = r.part_offset ∙ (block_begin_ends n p roomy.some_process).0 in
      let left : p ≡ suc (p - 1) = omega arith in
      let loop : seq_puts img m 0 m.nprocs
          ≡ ok (
            record m { part_size = n },
            seq_sends n p img sized roomy.few small 0 (suc (p - 1)),
          ) =
        ap (seq_puts img m 0) (r.nprocs ∙ left)
        ∙ seq_puts_lem n p img sized roomy.few small m 0 (p - 1) r.full_size r.nprocs begin
            (omega arith) in
      let part = part_at n p 0 img in
      let size = length-part_at hash_part hash_procs n p img sized 0 roomy.some_process in
      let puts = seq_sends n p img sized roomy.few small 0 (suc (p - 1)) in
      let c : Chunk = record { offset = 0; bytes = part } in
      let mine : puts_to m.pid puts ≡ c ∷ [] =
        ap (λ q. puts_to q puts) r.pid
        ∙ ap (λ cs. c ∷ cs)
            (puts_to-seq_sends n p img sized roomy.few small 1 (p - 1) (omega arith)) in
      let fits : length (deliver (puts_to m.pid puts) m.part) ≡ size_at n p 0 =
        ap (λ cs. length (deliver cs m.part)) mine
        ∙ deliver-length deliver v part m.part (c ∷ []) (r.part ∙ sym size)
            ((omega arith, sym (take_all (length part) part (omega arith))), tt)
        ∙ size in
      let shorter = size_at-lt n p img sized roomy.few small hp hn in
      let over : ltb (length (deliver (puts_to m.pid puts) m.part)) n ≡ true =
        ground (arith, fits, shorter) in
      ap (λ r. r >>= λ done. bsp_insert_seq hash_part hash_procs deliver done.1 (done.0 ∷ others))
        loop
      ∙ rw over refl
