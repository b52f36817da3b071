-- ===== src/Message/Fields.antt =====
-- The fields of the envelopes (ActiveBSP/include/actormsg/instruction_envelope.h and the headers of
-- the messages) as x86-64 lays them out: an `int` is 4 bytes and a `size_t` 8 bytes at a multiple of
-- 8 of its structure, with the lowest byte first. A read outside the buffer is a fault.
use activebsp.Base.{
  ℕ, zero, suc, ◌+◌, ◌*◌, ◌/◌, ◌%◌, ◌<◌, ◌≡◌, refl, ap, ap₂, drop, ◌∙◌, arith, List, [], ◌∷◌, ◌++◌,
  length, take, ltb, if◌then◌else◌, int_mod, int_min, size_mod, to_int, All, Result, ok, fault,
  ◌>>=◌, out_of_bounds, length_error, take_all, drop-append_ge, ◌-◌, length-append, take-append_le,
}
use activebsp.Store.DataStore.{Bytes}

abbrev pub int_bytes : ℕ → Bytes
int_bytes w = w % 256 ∷ w / 256 % 256 ∷ w / 65536 % 256 ∷ w / 16777216 % 256 ∷ []

abbrev pub size_bytes : ℕ → Bytes
size_bytes n = int_bytes (to_int n) ++ int_bytes (n / int_mod)

abbrev pub read_int : Bytes → Result ℕ
read_int (a ∷ b ∷ c ∷ d ∷ bytes) = ok (a + 256 * b + 65536 * c + 16777216 * d)
read_int bytes = fault out_of_bounds

abbrev pub read_size : Bytes → Result ℕ
read_size (a ∷ b ∷ c ∷ d ∷ bytes) =
    read_int bytes >>= λ high. ok (a + 256 * b + 65536 * c + 16777216 * d + int_mod * high)
read_size bytes = fault out_of_bounds

abbrev pub read_byte : Bytes → Result ℕ
read_byte (a ∷ bytes) = ok a
read_byte [] = fault out_of_bounds

-- `std::string(pointer)`: the bytes before the first zero.
unfoldable pub read_c_string : Bytes → Result Bytes
read_c_string [] = fault out_of_bounds
read_c_string (zero ∷ bytes) = ok []
read_c_string (suc c ∷ bytes) = read_c_string bytes >>= λ string. ok (suc c ∷ string)

-- The copy of `n` bytes out of a buffer.
unfoldable pub read_bytes : ℕ → Bytes → Result Bytes
read_bytes n bytes = if ltb (length bytes) n then fault out_of_bounds else ok (take n bytes)

-- A vector that is given the size `n`, an `int`: a negative one is too long for any vector.
unfoldable pub sized : {A : Type 0} → ℕ → Result A → Result A
sized n x = if ltb n int_min then x else fault length_error

-- An array of `int`.
abbrev pub ints_bytes : List ℕ → Bytes
ints_bytes [] = []
ints_bytes (w ∷ ws) = int_bytes w ++ ints_bytes ws

unfoldable pub read_ints : ℕ → Bytes → Result (List ℕ)
read_ints zero bytes = ok []
read_ints (suc n) bytes = read_int bytes >>= λ w. read_ints n (drop 4 bytes) >>= λ ws. ok (w ∷ ws)

-- `memcpy` of an array whose size in bytes was kept in an `int`: a negative size is a huge `size_t`.
unfoldable pub int_sized : Bytes → Result Bytes
int_sized bytes =
    let n = to_int (length bytes) in
    if ltb n int_min then ok (take n bytes) else fault out_of_bounds

-- `n` bytes that are not set, from `offset` on, in memory that holds `memory`.
abbrev pub unset : (ℕ → ℕ) → ℕ → ℕ → Bytes
unset memory offset zero = []
unset memory offset (suc n) = memory offset ∷ unset memory (suc offset) n

abbrev pub IsInt : ℕ → Type 0
IsInt w = w < int_mod

abbrev pub IsSize : ℕ → Type 0
IsSize n = n < size_mod

-- A character of a string that a zero ends.
abbrev pub IsChar : ℕ → Type 0
IsChar c = 0 < c

-- Reads of what was written, in front of other bytes.
pub int_bytes_join :
    (w : ℕ)
    → IsInt w
    → w % 256 + 256 * (w / 256 % 256) + 65536 * (w / 65536 % 256) + 16777216 * (w / 16777216 % 256)
      ≡ w
int_bytes_join w h = omega arith

pub size_bytes_join :
    (n : ℕ)
    → IsSize n
    → to_int n % 256
        + 256 * (to_int n / 256 % 256)
        + 65536 * (to_int n / 65536 % 256)
        + 16777216 * (to_int n / 16777216 % 256)
        + int_mod
          * (n / int_mod % 256
              + 256 * (n / int_mod / 256 % 256)
              + 65536 * (n / int_mod / 65536 % 256)
              + 16777216 * (n / int_mod / 16777216 % 256))
      ≡ n
size_bytes_join n h =
    omega
      (arith, int_bytes_join (to_int n) (omega arith), int_bytes_join (n / int_mod) (omega arith))

-- A name with its zero, then a tail: what a buffer holds from a name on.
string_content :
    (name tail rest : Bytes) → ((name ++ (0 ∷ [])) ++ tail) ++ rest ≡ name ++ (0 ∷ (tail ++ rest))
string_content [] tail rest = refl
string_content (c ∷ name) tail rest = ap (◌∷◌ c) (string_content name tail rest)

read_c_string-zero :
    (name rest : Bytes) → All IsChar name → read_c_string (name ++ (0 ∷ rest)) ≡ ok name
unfolding read_c_string
read_c_string-zero [] rest h = refl
read_c_string-zero (zero ∷ name) rest h = absurd (omega (arith, h.0))
read_c_string-zero (suc c ∷ name) rest h =
    ap (λ r. r >>= λ string. ok (suc c ∷ string)) (read_c_string-zero name rest h.1)

pub read_c_string-bytes :
    (name tail rest : Bytes)
    → All IsChar name
    → read_c_string (((name ++ (0 ∷ [])) ++ tail) ++ rest) ≡ ok name
read_c_string-bytes name tail rest h =
    ap read_c_string (string_content name tail rest) ∙ read_c_string-zero name (tail ++ rest) h

drop-zero : (name rest : Bytes) → drop (suc (length name)) (name ++ (0 ∷ rest)) ≡ rest
drop-zero [] rest = refl
drop-zero (c ∷ name) rest = drop-zero name rest

pub drop-string :
    (name tail rest : Bytes)
    → length name + 1 < int_min
    → drop (to_int (length name + 1)) (((name ++ (0 ∷ [])) ++ tail) ++ rest) ≡ tail ++ rest
drop-string name tail rest h =
    let e : to_int (length name + 1) ≡ suc (length name) = omega arith in
    ap₂ drop e (string_content name tail rest) ∙ drop-zero name (tail ++ rest)

pub read_bytes-append : (bytes rest : Bytes) → read_bytes (length bytes) (bytes ++ rest) ≡ ok bytes
unfolding read_bytes
read_bytes-append bytes rest = ground (
  arith,
  length-append bytes rest,
  take-append_le (length bytes) bytes rest,
  take_all (length bytes) bytes,
)

sized_lem : {A : Type 0} (n : ℕ) (x : Result A) → n < int_min → sized n x ≡ x
unfolding sized
sized_lem n x h = ground arith

pub sized-bytes :
    (bytes rest : Bytes)
    → length bytes < int_min
    → sized (to_int (length bytes)) (read_bytes (to_int (length bytes)) (bytes ++ rest)) ≡ ok bytes
sized-bytes bytes rest h =
    let e : to_int (length bytes) ≡ length bytes = omega arith in
    ap (λ n. sized n (read_bytes n (bytes ++ rest))) e
    ∙ sized_lem (length bytes) (read_bytes (length bytes) (bytes ++ rest)) h
    ∙ read_bytes-append bytes rest

pub read_ints-bytes :
    (ws : List ℕ) (rest : Bytes)
    → All IsInt ws
    → read_ints (length ws) (ints_bytes ws ++ rest) ≡ ok ws
unfolding read_ints
read_ints-bytes [] rest h = refl
read_ints-bytes (w ∷ ws) rest h =
    ap (λ x. read_ints (length ws) (ints_bytes ws ++ rest) >>= λ xs. ok (x ∷ xs))
      (int_bytes_join w h.0)
    ∙ ap (λ r. r >>= λ xs. ok (w ∷ xs)) (read_ints-bytes ws rest h.1)

pub sized-ints :
    (ws : List ℕ) (rest : Bytes)
    → length ws < int_min
    → All IsInt ws
    → sized (to_int (length ws)) (read_ints (to_int (length ws)) (ints_bytes ws ++ rest)) ≡ ok ws
sized-ints ws rest short h =
    let e : to_int (length ws) ≡ length ws = omega arith in
    ap (λ n. sized n (read_ints n (ints_bytes ws ++ rest))) e
    ∙ sized_lem (length ws) (read_ints (length ws) (ints_bytes ws ++ rest)) short
    ∙ read_ints-bytes ws rest h

pub int_sized_lem : (bytes : Bytes) → length bytes < int_min → int_sized bytes ≡ ok bytes
unfolding int_sized
int_sized_lem bytes h = ground (arith, take_all (length bytes % int_mod) bytes)

pub int_sized-string :
    (name : Bytes)
    → length name + 1 < int_min
    → int_sized (name ++ (0 ∷ [])) ≡ ok (name ++ (0 ∷ []))
int_sized-string name h =
    int_sized_lem (name ++ (0 ∷ [])) (omega (arith, length-append name (0 ∷ [])))

pub length-ints_bytes : (ws : List ℕ) → length (ints_bytes ws) ≡ 4 * length ws
length-ints_bytes [] = refl
length-ints_bytes (w ∷ ws) = omega (arith, length-ints_bytes ws)

pub drop-ints_bytes :
    (ws : List ℕ) (rest : Bytes) → drop (4 * length ws) (ints_bytes ws ++ rest) ≡ rest
drop-ints_bytes ws rest =
    let e : 4 * length ws - length (ints_bytes ws) ≡ 0 = omega (arith, length-ints_bytes ws) in
    drop-append_ge (4 * length ws) (ints_bytes ws) rest (omega (arith, length-ints_bytes ws))
    ∙ ap (λ n. drop n rest) e
