-- ===== src/Filesystem/Examples/Table.antt =====
-- The disk, the table and the search for space at concrete inputs.
use eitan_os.Base.{
  ℕ, ◌+◌, ◌*◌, ◌<◌, ◌≤◌, ◌≡◌, refl, ◌⊎◌, true, false, List, [], ◌∷◌, All, replicate, get_elem?,
  some, none, arith,
}
use eitan_os.Filesystem.Disk.{Disk, read_sectors, write_sectors}
use eitan_os.Filesystem.Disk.Writing.{
  written_bytes, SameOutside, SameDrive, write_sectors-read_sectors, write_sectors-none_written,
}
use eitan_os.Filesystem.Table.{Fs, save_file_table, load_file_table}
use eitan_os.Filesystem.Table.Saving.{save_file_table-load_file_table}
use eitan_os.Filesystem.Space.{sectors_needed, first_end, find_space_for_file, gap_loop, edit_file}
use eitan_os.Filesystem.Space.Sorting.{collect, place, sort_loop}
use eitan_os.Filesystem.Space.Placement.{Clear, OfFiles}
use eitan_os.Filesystem.Space.Free.{find_space_for_file-Clear, find_space_for_file-none}
use eitan_os.Filesystem.Space.Update.{Full, Edited, edit_file-Edited}
use eitan_os.Filesystem.Examples.{
  fresh, disk, file_a, fs, table, table-Words, table-WellPlaced, fs-Ready,
}

abbrev text : List ℕ
text = 7 ∷ 8 ∷ 9 ∷ []

abbrev written_disk : Disk
written_disk = record disk { bytes = written_bytes disk 700 text 3 }

text_written : write_sectors disk 700 text 3 ≡ some written_disk
unfolding write_sectors
text_written = refl

write_sectors-read_sectors_example :
    get_elem? (read_sectors written_disk 700 (replicate 3 0) 3) 1 ≡ get_elem? text 1
write_sectors-read_sectors_example =
    write_sectors-read_sectors disk 700 text 3 refl (omega arith) (omega arith) (omega arith)
      (omega arith) written_disk (replicate 3 0) 1 text_written (omega arith)

write_sectors-none_written_example :
    (write_sectors disk 700 text (131072 * 1) ≡ some disk)
    × (read_sectors disk 700 text (131072 * 1) ≡ text)
write_sectors-none_written_example = write_sectors-none_written disk 700 1 text text (omega arith)

save_file_table-load_file_table_example :
    (saved : Fs) × (save_file_table fs ≡ some saved)
    × ((load_file_table fresh saved).file_table ≡ fs.file_table)
    × SameOutside fs.disk 1 20 saved.disk
    × (saved.file_table ≡ fs.file_table)
    × SameDrive fs.disk saved.disk
save_file_table-load_file_table_example =
    save_file_table-load_file_table fresh fs refl (omega arith) (omega arith) fs-Ready.2 table-Words

space_found : find_space_for_file 1000 table 600 ≡ some 643
unfolding find_space_for_file gap_loop collect place sort_loop
space_found = refl

space_missing : find_space_for_file 1000 table 182784 ≡ none
unfolding find_space_for_file gap_loop collect place sort_loop
space_missing = refl

find_space_for_file-Clear_example :
    (first_end ≤ 643)
    × (643 + sectors_needed 600 < 1000)
    × All (OfFiles (Clear 643 (sectors_needed 600))) table
find_space_for_file-Clear_example =
    find_space_for_file-Clear 1000 table (omega arith, omega arith) table-WellPlaced 600 643
      space_found

find_space_for_file-none_example : ¬ All (OfFiles (Clear 641 (sectors_needed 182784))) table
find_space_for_file-none_example =
    find_space_for_file-none 1000 table (omega arith, omega arith) table-WellPlaced 182784 641
      space_missing (omega arith) (omega arith)

edit_file-Edited_example :
    (Full fs 1 file_a 3 × (edit_file fs 1 text 3 ≡ some (fs, false)))
    ⊎ ((fs' : Fs) × (edit_file fs 1 text 3 ≡ some (fs', true))
        × Edited fresh fs 1 file_a text 3 fs')
edit_file-Edited_example =
    edit_file-Edited fresh fs 1 file_a text 3 fs-Ready (omega arith) (omega arith) refl refl
