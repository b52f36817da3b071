-- ===== src/Worker/Results/Table.antt =====
-- The bytes of a table of parts.
use activebsp.Base.{
  ◌*◌, ◌/◌, ◌<◌, ◌≡◌, refl, ap, ◌∙◌, arith, List, [], ◌∷◌, ◌++◌, length, All, int_mod, to_int,
}
use activebsp.Distribution.VectorDistribution.{Part}
use activebsp.Store.DataStore.{Bytes}
use activebsp.Message.Fields.{int_bytes, size_bytes}
use activebsp.Worker.Results.{part_bytes, table_bytes}

pub length-table_bytes : (ps : List Part) → length (table_bytes ps) ≡ length ps * 24
length-table_bytes [] = omega arith
length-table_bytes (p ∷ ps) = omega (arith, length-table_bytes ps)

pub table_bytes-append :
    (ps qs : List Part) → table_bytes (ps ++ qs) ≡ table_bytes ps ++ table_bytes qs
table_bytes-append [] qs = refl
table_bytes-append (p ∷ ps) qs = ap (λ bytes. part_bytes p ++ bytes) (table_bytes-append ps qs)

-- The offset of a part is below 2 ^ 32.
abbrev pub IsNear : Part → Type 0
IsNear p = p.offset < int_mod

-- A part seen four bytes early: the padding in front of it, and all of it but its last four bytes.
abbrev pub early_bytes : Part → Bytes
early_bytes p =
    int_bytes 0
    ++ (int_bytes p.pid ++ (int_bytes p.resid ++ (size_bytes p.size ++ int_bytes p.offset)))

abbrev pub early_table : List Part → Bytes
early_table [] = []
early_table (p ∷ ps) = early_bytes p ++ early_table ps

pub length-early_table : (ps : List Part) → length (early_table ps) ≡ length ps * 24
length-early_table [] = omega arith
length-early_table (p ∷ ps) = omega (arith, length-early_table ps)

pub early_table-append :
    (ps qs : List Part) → early_table (ps ++ qs) ≡ early_table ps ++ early_table qs
early_table-append [] qs = refl
early_table-append (p ∷ ps) qs = ap (λ bytes. early_bytes p ++ bytes) (early_table-append ps qs)

-- The high half of a near offset is the padding of the part that comes next.
part_bytes-near :
    (p : Part) (rest : Bytes)
    → IsNear p
    → int_bytes 0 ++ (part_bytes p ++ rest) ≡ early_bytes p ++ (int_bytes 0 ++ rest)
part_bytes-near p rest h =
    let high : p.offset / int_mod ≡ 0 = omega arith in
    let low : to_int p.offset ≡ p.offset = omega arith in rw (high, low)

pub table_bytes-early :
    (ps : List Part) → All IsNear ps → int_bytes 0 ++ table_bytes ps ≡ early_table ps ++ int_bytes 0
table_bytes-early [] h = refl
table_bytes-early (p ∷ ps) (h, hs) =
    part_bytes-near p (table_bytes ps) h
    ∙ ap (λ bytes. early_bytes p ++ bytes) (table_bytes-early ps hs)
