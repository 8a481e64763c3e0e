-- ===== src/Filesystem/Paths/Parts.antt =====
-- filesystem.c: `split_path` cuts a path behind its last slash.
use eitan_os.Base.{
  ℕ, suc, ◌+◌, ◌-◌, ◌<◌, ◌≡◌, ◌≢◌, refl, sym, ap, ◌∙◌, ◌==◌, if◌then◌else◌, List, [], ◌∷◌, ◌++◌,
  append_assoc, All, All-append, length, length-append, drop, Option, none, some, arith, ne→==,
  ==_refl,
}
use eitan_os.Text.{counted, strlen, strrchr, strrchr_loop}
use eitan_os.Text.Compare.{NonZero, c_string, strlen_lem, measure_short}
use eitan_os.Text.Search.{Other}
use eitan_os.Filesystem.Paths.{slash, split_path}
use eitan_os.Text.Build.{copy_bytes}
use eitan_os.Filesystem.Directories.Listing.{drop_past}
use eitan_os.Filesystem.Directories.Shrink.{copy_bytes_all}

none_behind :
    (at c : ℕ) (last : Option ℕ) (name behind : List ℕ)
    → All NonZero name
    → All (Other c) name
    → strrchr_loop at last (c_string name behind) c ≡ some last
unfolding strrchr_loop
none_behind at c last [] behind ok other = refl
none_behind at c last (b ∷ name) behind (one, ok) (differs, other) =
    let rest = none_behind (at + 1) c last name behind ok other in
    ground (arith, one, ne→== b c differs, rest)

last_place :
    (at c : ℕ) (last : Option ℕ) (front name behind : List ℕ)
    → c ≢ 0
    → All NonZero front
    → All NonZero name
    → All (Other c) name
    → strrchr_loop at last (front ++ c ∷ c_string name behind) c ≡ some (some (at + length front))
unfolding strrchr_loop
last_place at c last [] name behind nonzero held ok other =
    let rest = none_behind (at + 1) c (some at) name behind ok other in
    let place : at + 0 ≡ at = omega arith in ground (arith, nonzero, ==_refl c, rest, place)
last_place at c last (b ∷ front) name behind nonzero (one, held) ok other =
    let found = if b == c then some at else last in
    let rest = last_place (at + 1) c found front name behind nonzero held ok other in
    let place : at + 1 + length front ≡ at + suc (length front) = omega arith in
    ground (arith, one, rest, place)

-- A path of at most 1001 bytes that is a front, a slash and a name without slashes is split in two new strings:
-- the front with the slash, and the name.
pub split_path_lem :
    (front name behind : List ℕ)
    → All NonZero front
    → All NonZero name
    → All (Other slash) name
    → length front + length name < 1001
    → split_path (c_string (front ++ slash ∷ name) behind)
      ≡ some (c_string (front ++ slash ∷ []) [], c_string name [])
unfolding split_path
split_path_lem front name behind held ok other short =
    let path = c_string (front ++ slash ∷ name) behind in
    let parts : path ≡ front ++ slash ∷ c_string name behind =
      append_assoc front (slash ∷ name) (0 ∷ behind) in
    let measure : length (front ++ slash ∷ name) ≡ length front + length name + 1 =
      omega (arith, length-append front (slash ∷ name)) in
    let found : strrchr path slash ≡ some (some (length front)) =
      ap (λ l. strrchr l slash) parts
      ∙ (last_place 0 slash none front name behind (omega arith) held ok other
          ∙ ap (λ n. some (some n)) {x = 0 + length front} {y = length front} (omega arith)) in
    let measured : strlen path ≡ some (counted (length front + length name + 1)) =
      strlen_lem (front ++ slash ∷ name) behind
        (All-append NonZero front (slash ∷ name) held (omega arith, ok))
      ∙ (ap some (measure_short (length (front ++ slash ∷ name)) (omega (arith, measure, short)))
          ∙ ap (λ n. some (counted n)) measure) in
    let name_bytes : drop (length front + 1) path ≡ c_string name behind =
      ap (drop (length front + 1)) parts
      ∙ drop_past front (slash ∷ c_string name behind) (length front + 1) 1 refl in
    let copied_name : copy_bytes (length front + length name + 1 - length front)
          (drop (length front + 1) path)
        ≡ some (c_string name []) =
      ap (copy_bytes (length front + length name + 1 - length front))
        (name_bytes ∙ sym (append_assoc name (0 ∷ []) behind))
      ∙ copy_bytes_all (length front + length name + 1 - length front) (c_string name []) behind
          (omega (arith, length-append name (0 ∷ []))) in
    let copied_dir : copy_bytes (length front + 1) path ≡ some (front ++ slash ∷ []) =
      ap (copy_bytes (length front + 1))
        (parts ∙ sym (append_assoc front (slash ∷ []) (c_string name behind)))
      ∙ copy_bytes_all (length front + 1) (front ++ slash ∷ []) (c_string name behind)
          (omega (arith, length-append front (slash ∷ []))) in
    ground (arith, found, measured, copied_name, copied_dir)
