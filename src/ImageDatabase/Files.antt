-- ===== src/ImageDatabase/Files.antt =====
-- `saveDb` and `loadDb` of the image database. Directories exist and files can be written. The
-- buffer `_path` stands for the text before its first zero, which every process has after the puts
-- of `saveDb` and the gets of `bsp_load_db`.
pub mod Names
pub mod Records
pub mod Saving
pub mod Loading
pub mod Reload
use activebsp.Base.{
  ℕ, zero, suc, ◌-◌, ◌+◌, ◌==◌, List, [], ◌∷◌, ◌++◌, length, ltb, take, drop, copy_into, Option,
  none, some, size_add, size_sub, if◌then◌else◌, Result, ok, fault, out_of_bounds, unfinished,
  ◌>>=◌,
}
use activebsp.Store.DataStore.{Bytes}
use activebsp.Message.Fields.{size_bytes, read_size}
use activebsp.ImageDatabase.{Member, entry_at, set_entry, each_process}
use activebsp.ImageDatabase.Buckets.{same}

abbrev pub slash : ℕ
slash = 47

-- "imgdb_".
abbrev pub imgdb : Bytes
imgdb = 105 ∷ 109 ∷ 103 ∷ 100 ∷ 98 ∷ 95 ∷ []

-- The files, by their paths.
abbrev pub FileSystem : Type 0
FileSystem = Bytes → Option Bytes

-- A new file, or new contents of an old one.
unfoldable pub write_file : Bytes → Bytes → FileSystem → FileSystem
write_file name bytes files = λ other. if same name other then some bytes else files other

-- The bytes before the first zero.
abbrev pub c_string : Bytes → Bytes
c_string [] = []
c_string (zero ∷ bytes) = []
c_string (suc c ∷ bytes) = suc c ∷ c_string bytes

abbrev pub last_byte : Bytes → Result ℕ
last_byte [] = fault out_of_bounds
last_byte (b ∷ []) = ok b
last_byte (b ∷ c ∷ bytes) = last_byte (c ∷ bytes)

-- The test of `loadDb` for a slash at the end. That of `saveDb` looks at the zero behind the last
-- byte.
unfoldable pub load_dir : Bytes → Result Bytes
load_dir dir = last_byte dir >>= λ b. ok (if b == slash then dir else dir ++ (slash ∷ []))

unfoldable pub save_dir : Bytes → Bytes
save_dir dir = dir ++ (slash ∷ [])

-- One turn of the loop of `bsp_load_db`, on a file that is there.
unfoldable pub load_file : Bytes → Member → Result Member
unfolding entry_at set_entry
load_file bytes m = read_size bytes >>= λ hash.
    if ltb (length m.thumbnail_buf) m.full_size
    then fault out_of_bounds
    else (let buf = copy_into m.thumbnail_buf 0 (take m.full_size (drop 8 bytes)) in
        let i = size_sub hash m.hash_start in
        entry_at m.hash_table i >>= λ entry. ok (record m {
          thumbnail_buf = buf;
          thumbnails = m.thumbnails ++ (buf ∷ []);
          hash_table = set_entry m.hash_table i (entry ++ (buf ∷ []));
        }))

-- `path_max` is `PATH_MAX`, and `file_name i s` what `snprintf` makes of "file%zu_p%d".
module _ (path_max : ℕ) (file_name : ℕ → ℕ → Bytes) where
  -- `strncpy` into `_path`, which leaves no zero behind a text that is too long.
  unfoldable pub path_of : Bytes → Result Bytes
  path_of dir =
      if ltb (length (c_string dir)) path_max then ok (c_string dir) else fault out_of_bounds

  -- The two calls of `snprintf`, the second one with the length that the first one wanted to print.
  unfoldable pub file_path : Bytes → ℕ → ℕ → Result Bytes
  file_path dir i s =
      let base_len = length dir + 6 in
      let path = dir ++ take (path_max - length dir - 1) imgdb in
      if ltb path_max base_len
      then fault out_of_bounds
      else ok (take base_len path ++ take (path_max - base_len - 1) (file_name i s))

  -- The loops of `bsp_save_db` over an entry and over the table of process `s`.
  unfoldable pub save_entry : Bytes → ℕ → ℕ → ℕ → List Bytes → FileSystem → Result (ℕ × FileSystem)
  unfolding file_path write_file
  save_entry dir s hash i [] files = ok (i, files)
  save_entry dir s hash i (thumb ∷ entry) files = file_path dir i s >>= λ name.
      save_entry dir s hash (size_add i 1) entry (write_file name (size_bytes hash ++ thumb) files)

  unfoldable pub save_table : Bytes → ℕ → ℕ → ℕ → List (List Bytes) → FileSystem → Result FileSystem
  unfolding save_entry
  save_table dir s hash i [] files = ok files
  save_table dir s hash i (entry ∷ table) files =
      save_entry dir s hash i entry files >>= λ (r : ℕ × FileSystem).
      save_table dir s (size_add hash 1) r.0 table r.1

  -- `bsp_save_db` on all the processes, each of which has files of its own.
  unfoldable pub bsp_save_db : Bytes → List Member → FileSystem → Result FileSystem
  unfolding save_table
  bsp_save_db dir [] files = ok files
  bsp_save_db dir (m ∷ ms) files =
      save_table dir m.pid m.hash_start 0 m.hash_table files >>= λ after. bsp_save_db dir ms after

  unfoldable pub save_db : Bytes → List Member → FileSystem → Result FileSystem
  unfolding path_of save_dir bsp_save_db
  save_db dir ms files = path_of (save_dir dir) >>= λ path. bsp_save_db path ms files

  -- The loop of `bsp_load_db` on one process, which may open the given number of files.
  unfoldable pub bsp_load_db : ℕ → Bytes → FileSystem → ℕ → Member → Result Member
  unfolding file_path load_file
  bsp_load_db zero dir files i m = fault unfinished
  bsp_load_db (suc fuel) dir files i m = file_path dir i m.pid >>= λ name. elim (files name) [
    | none ↦ ok m
    | some bytes ↦ load_file bytes m >>= λ m'. bsp_load_db fuel dir files (size_add i 1) m'
  ]

  unfoldable pub load_db : ℕ → Bytes → FileSystem → List Member → Result (List Member)
  unfolding path_of load_dir bsp_load_db each_process
  load_db fuel dir files ms = load_dir dir >>= λ dir'.
      path_of dir' >>= λ path. each_process (bsp_load_db fuel path files 0) ms
