-- ===== src/Filesystem/Disk.antt =====
-- filesystem.c: reading and writing sectors, through the drive's ports in the source; here the drive is the
-- bytes it holds. The waits for the drive have no counterpart.
pub mod Transfer
pub mod Writing
use eitan_os.Base.{
  ℕ, zero, suc, ◌+◌, ◌-◌, ◌*◌, ◌/◌, ◌%◌, ◌^◌, Bool, not, ◌&&◌, ◌||◌, ltb, leb, if◌then◌else◌, List,
  [], ◌∷◌, ◌++◌, length, drop, Option, none, some,
}

abbrev pub sector_size : ℕ
sector_size = 512

-- `sector_count` and `writable_drive`, and the bytes on the drive.
pub record Disk : Type 0 where
  pub sector_count : ℕ
  pub writable_drive : Bool
  pub bytes : ℕ → ℕ

-- `const uint8_t count = ceil((double)size / SECTOR_SIZE);`, where `floor` casts to `int`: from 2 ^ 31 sectors on
-- that is the least `int`, so that `ceil` adds one to it, which is 1 in 8 bits.
abbrev pub transfer_count : ℕ → ℕ
transfer_count size =
    if ltb (size / sector_size) (2 ^ 31) then (size + 511) / sector_size % 2 ^ 8 else 1

-- How many bytes of the buffer a transfer takes: the loop over its sectors stops at `size`.
abbrev pub transfer_size : ℕ → ℕ
transfer_size size =
    let all = transfer_count size * sector_size in if ltb all size then all else size

-- `count < 1 || lba + count >= sector_count`
abbrev pub refuses : Disk → ℕ → ℕ → Bool
refuses d lba size =
    ltb (transfer_count size) 1 || leb d.sector_count ((lba + transfer_count size) % 2 ^ 32)

unfoldable pub slice : (ℕ → ℕ) → ℕ → ℕ → List ℕ
slice bytes from zero = []
slice bytes from (suc n) = bytes from ∷ slice bytes (from + 1) n

-- What the memory from `target` on holds afterwards. The last byte of an odd size is written as a word, so
-- that the byte behind it becomes 0.
unfoldable pub read_sectors : Disk → ℕ → List ℕ → ℕ → List ℕ
read_sectors d lba target size =
    let n = transfer_size size in
    let got = slice d.bytes (lba * sector_size) n in
    if refuses d lba size
    then target
    else if leb 1 (n % 2)
    then got ++ 0 ∷ drop (n + 1) target
    else got ++ drop n target

abbrev pub byte_at : List ℕ → ℕ → ℕ
byte_at [] k = 0
byte_at (b ∷ bs) zero = b
byte_at (b ∷ bs) (suc k) = byte_at bs k

-- The sectors hold the bytes of `src` and then zeros. Reading behind `src` is `none`.
unfoldable pub write_sectors : Disk → ℕ → List ℕ → ℕ → Option Disk
write_sectors d lba src size =
    let start = lba * sector_size in
    let end = start + transfer_count size * sector_size in
    let bytes : ℕ → ℕ = λ at.
      if leb start at && ltb at end
      then if ltb (at - start) size then byte_at src (at - start) else 0
      else d.bytes at in
    if not d.writable_drive || refuses d lba size
    then some d
    else if ltb (length src) (transfer_size size)
    then none
    else some (record d { bytes = bytes })
