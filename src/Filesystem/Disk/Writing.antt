-- ===== src/Filesystem/Disk/Writing.antt =====
-- filesystem.c: what `write_sectors` leaves on the disk, and the sizes that it does not write at all.
use eitan_os.Base.{
  ℕ, ◌+◌, ◌-◌, ◌*◌, ◌/◌, ◌^◌, ◌≤◌, ◌<◌, ◌≡◌, ◌⊎◌, inl, inr, refl, sym, ap, subst, ◌∙◌, true, false,
  ◌&&◌, ltb, leb, if◌then◌else◌, Bool-cases, List, length, get_elem?, some, arith,
}
use eitan_os.Filesystem.Disk.{Disk, transfer_count, refuses, read_sectors, byte_at, write_sectors}
use mathlib.Core.Option.{some-injective}
use eitan_os.Filesystem.Disk.Transfer.{
  most, transfer_size_all, read_sectors-read_at, byte_at-get_elem?,
}

-- The sectors of `size` bytes
abbrev pub sectors : ℕ → ℕ
sectors size = (size + 511) / 512

-- The two disks differ at most in the `n` sectors from `lba` on.
abbrev pub SameOutside : Disk → ℕ → ℕ → Disk → Type 0
SameOutside d lba n d' =
    (at : ℕ) → (at < lba * 512) ⊎ ((lba + n) * 512 ≤ at) → d'.bytes at ≡ d.bytes at

abbrev pub SameDrive : Disk → Disk → Type 0
SameDrive d d' = (d'.sector_count ≡ d.sector_count) × (d'.writable_drive ≡ d.writable_drive)

-- The disk has the first `size` bytes of `src` from sector `lba` on.
abbrev pub Holds : Disk → ℕ → List ℕ → ℕ → Type 0
Holds d lba src size = (k : ℕ) → k < size → some (d.bytes (lba * 512 + k)) ≡ get_elem? src k

abbrev pub Written : Disk → ℕ → List ℕ → ℕ → Disk → Type 0
Written d lba src size d' =
    Holds d' lba src size × SameOutside d lba (sectors size) d' × SameDrive d d'

abbrev pub written_bytes : Disk → ℕ → List ℕ → ℕ → ℕ → ℕ
written_bytes d lba src size at =
    let start = lba * 512 in
    let end = start + transfer_count size * 512 in
    if leb start at && ltb at end
    then if ltb (at - start) size then byte_at src (at - start) else 0
    else d.bytes at

pub accepts :
    (d : Disk) (lba size : ℕ)
    → 1 ≤ size
    → size ≤ most
    → lba + sectors size < d.sector_count
    → d.sector_count < 2 ^ 16
    → refuses d lba size ≡ false
accepts d lba size some_bytes small inside fits = ground (arith, some_bytes, small, inside, fits)

module _ (d : Disk) (lba : ℕ) (src : List ℕ) (size : ℕ) (writable : d.writable_drive ≡ true)
    (small : size ≤ most) (enough : size ≤ length src)
    (inside : lba + sectors size < d.sector_count) (fits : d.sector_count < 2 ^ 16) where
  written_at : (k : ℕ) → k < size → written_bytes d lba src size (lba * 512 + k) ≡ byte_at src k
  written_at k short = ground (arith, short, small)

  written_outside :
      (at : ℕ)
      → (at < lba * 512) ⊎ ((lba + sectors size) * 512 ≤ at)
      → written_bytes d lba src size at ≡ d.bytes at
  written_outside at outside = ground (arith, outside, small)

  write-run :
      1 ≤ size
      → write_sectors d lba src size ≡ some (record d { bytes = written_bytes d lba src size })
  unfolding write_sectors
  write-run some_bytes = ground (
    arith,
    writable,
    accepts d lba size some_bytes small inside fits,
    enough,
    transfer_size_all size small,
  )

  write-nothing : size ≡ 0 → write_sectors d lba src size ≡ some d
  unfolding write_sectors
  write-nothing empty = ground (arith, empty, writable)

  -- On a drive that can be written, at most 255 sectors that end before the last one of the disk are written:
  -- they then hold the bytes, and nothing changes outside them.
  pub write_sectors-Written :
      (d' : Disk) × (write_sectors d lba src size ≡ some d') × Written d lba src size d'
  write_sectors-Written = elim (Bool-cases (leb 1 size)) [
    | inl full ↦ (
      record d { bytes = written_bytes d lba src size },
      write-run (ground (arith, full)),
      (
        λ k short.
            ap some (written_at k short)
            ∙ sym (byte_at-get_elem? src k (omega (arith, short, enough))),
        written_outside,
        (refl, refl),
      ),
    )
    | inr none_left ↦ (
      d,
      write-nothing (ground (arith, none_left)),
      (λ k short. absurd (ground (arith, none_left, short)), λ at outside. refl, (refl, refl)),
    )
  ]

  -- A read of sectors just written, of the same size and up to 255 of them, gives back the bytes that were
  -- written, into any buffer.
  pub write_sectors-read_sectors :
      (d' : Disk) (target : List ℕ) (k : ℕ)
      → write_sectors d lba src size ≡ some d'
      → k < size
      → get_elem? (read_sectors d' lba target size) k ≡ get_elem? src k
  write_sectors-read_sectors d' target k run short =
      let (d'', run', (held, outside, (same_count, same_drive))) = write_sectors-Written in
      let equal : d'' ≡ d' = some-injective d'' d' (sym run' ∙ run) in
      let runs =
        accepts d'' lba size (omega (arith, short)) small (omega (arith, inside, same_count))
          (omega (arith, fits, same_count)) in
      let read : get_elem? (read_sectors d'' lba target size) k ≡ get_elem? src k =
        read_sectors-read_at d'' lba target size k small runs
        ∙ (ground (arith, short) ∙ held k short) in
      subst (λ d. get_elem? (read_sectors d lba target size) k ≡ get_elem? src k) equal read

-- A size under 2^40 bytes whose sectors are a multiple of 256 leaves the disk as it was, since the count of
-- sectors has 8 bits; the same holds of a buffer that is read into.
pub write_sectors-none_written :
    (d : Disk) (lba m : ℕ) (src target : List ℕ)
    → 131072 * m < 2 ^ 40
    → (write_sectors d lba src (131072 * m) ≡ some d)
      × (read_sectors d lba target (131072 * m) ≡ target)
unfolding write_sectors read_sectors
write_sectors-none_written d lba m src target small =
    let none_counted : transfer_count (131072 * m) ≡ 0 = ground (arith, small) in
    (ground (arith, none_counted), ground (arith, none_counted))
