-- ===== src/Filesystem/Paths.antt =====
-- filesystem.c: `is_valid_path`, `split_path` and the bytes that the code copies. A path is a C string.
pub mod Validity
pub mod Parts
use eitan_os.Base.{
  ℕ, zero, suc, ◌+◌, ◌-◌, ◌^◌, Bool, false, ◌==◌, ◌&&◌, ltb, not, if◌then◌else◌, List, [], ◌∷◌,
  ◌++◌, drop, set, Option, none, some,
}
use eitan_os.Base.Faults.{◌>>=◌}
use eitan_os.Text.Build.{copy_bytes}
use eitan_os.Text.{Length, counted, minus_one, strlen, strrchr}

-- `/`
abbrev pub slash : ℕ
slash = 47

-- `FILE_NAME_LENGTH`
abbrev pub name_length : ℕ
name_length = 60

-- `size_t len = strlen(path);`, where `-1` becomes the greatest number
abbrev pub unsigned : Length → ℕ
unsigned (counted n) = n
unsigned minus_one = 2 ^ 64 - 1

-- `left` bytes of the path are left. `len > 1` is false only if none were there.
unfoldable pub component_loop : ℕ → ℕ → List ℕ → ℕ → Option Bool
component_loop len component_len path zero = some (not ((component_len == 0) && ltb 1 len))
component_loop len component_len [] (suc left) = none
component_loop len component_len (c ∷ path) (suc left) =
    let next = component_loop len 0 path left in
    let rest = component_loop len (component_len + 1) path left in
    if c == slash
    then if component_len == 0 then some false else next
    else if c == 0
    then some false
    else if ltb name_length (component_len + 1)
    then some false
    else rest

unfoldable pub is_valid_path : List ℕ → Option Bool
is_valid_path [] = none
is_valid_path (c ∷ path) =
    if not (c == slash)
    then some false
    else strlen (c ∷ path) >>= (λ len.
      if unsigned len == 0
      then some false
      else component_loop (unsigned len) 0 path (unsigned len - 1))

-- `memcpy` into a buffer at a place of it
abbrev pub write_at : List ℕ → ℕ → List ℕ → List ℕ
write_at buffer at [] = buffer
write_at buffer at (b ∷ bytes) = write_at (set buffer at b) (at + 1) bytes

-- The path up to its last slash, and the name behind. A path without a slash has no place to copy from.
unfoldable pub split_path : List ℕ → Option (List ℕ × List ℕ)
split_path path = strrchr path slash >>= (λ found. found >>= (λ last_slash_idx.
    strlen path >>= (λ len.
      copy_bytes (unsigned len - last_slash_idx) (drop (last_slash_idx + 1) path) >>= (λ name.
        copy_bytes (last_slash_idx + 1) path >>= (λ dir_path. some (dir_path ++ 0 ∷ [], name))))))
