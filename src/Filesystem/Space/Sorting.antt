-- ===== src/Filesystem/Space/Sorting.antt =====
-- filesystem.c: the valid entries in the order of their first sectors. The source sorts the indices of the
-- entries, and here the entries stand for their indices, since the table does not change meanwhile.
use eitan_os.Base.{ltb, if◌then◌else◌, List, [], ◌∷◌}
use eitan_os.Filesystem.Table.{FileEntry, is_file}

unfoldable pub collect : List FileEntry → List FileEntry
collect [] = []
collect (e ∷ es) = let rest = collect es in if is_file e then e ∷ rest else rest

-- The inner loop: the sorted part, from its last entry down, with `key` put in its place.
unfoldable pub place : FileEntry → List FileEntry → List FileEntry
place key [] = key ∷ []
place key (e ∷ sorted) =
    let deeper = place key sorted in
    if ltb key.start_sector e.start_sector then e ∷ deeper else key ∷ e ∷ sorted

-- The outer loop, and the whole order from its first entry up at the end
unfoldable pub sort_loop : List FileEntry → List FileEntry → List FileEntry
sort_loop sorted [] = sorted
sort_loop sorted (key ∷ rest) = sort_loop (place key sorted) rest

abbrev pub upwards : List FileEntry → List FileEntry → List FileEntry
upwards [] order = order
upwards (e ∷ sorted) order = upwards sorted (e ∷ order)

abbrev pub sort : List FileEntry → List FileEntry
sort entries = upwards (sort_loop [] entries) []
