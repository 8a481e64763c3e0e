-- ===== src/Shell/Examples.antt =====
-- programs/shell/c.c: `parse_path` on the path `/a/../b`.
use eitan_os.Base.{ℕ, ◌≡◌, refl, true, List, [], ◌∷◌, some, arith}
use eitan_os.Base.Faults.{◌>>=◌}
use eitan_os.Text.Compare.{c_string}
use eitan_os.Filesystem.Paths.{is_valid_path}
use eitan_os.Shell.{slash, parse_path, join_working_dir}
use eitan_os.Shell.Parse.{names_left, canonical, parse_path-canonical}
use eitan_os.Shell.Absolute.{join_working_dir-is_valid_path}

abbrev there_and_back : List ℕ
there_and_back = 97 ∷ 47 ∷ 46 ∷ 46 ∷ 47 ∷ 98 ∷ []

back_test : names_left (slash ∷ there_and_back) ≡ (98 ∷ []) ∷ []
back_test = refl

parse_path-canonical_example :
    (behind' : List ℕ) × (parse_path (c_string (slash ∷ there_and_back) (9 ∷ []))
      ≡ some (c_string (canonical (slash ∷ there_and_back)) behind'))
parse_path-canonical_example =
    parse_path-canonical there_and_back (9 ∷ [])
      (omega arith, (omega arith, (omega arith, (omega arith, (omega arith, (omega arith, tt))))))
      (omega arith) (omega arith)

-- In `/a`, the path `../b`
abbrev beside : List ℕ
beside = 46 ∷ 46 ∷ 47 ∷ 98 ∷ []

join_working_dir-is_valid_path_example :
    (out : List ℕ) × ((join_working_dir (c_string (slash ∷ 97 ∷ []) []) (c_string beside (5 ∷ []))
        >>= parse_path)
      ≡ some out)
    × (is_valid_path out ≡ some true)
join_working_dir-is_valid_path_example =
    join_working_dir-is_valid_path (97 ∷ []) [] beside (5 ∷ []) (omega arith, tt)
      (omega arith, (omega arith, (omega arith, (omega arith, tt)))) (omega arith) (omega arith)
      (omega arith, tt)
