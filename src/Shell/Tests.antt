-- ===== src/Shell/Tests.antt =====
-- A command line and a directory at concrete addresses, and the theorems at them.
use l_ost.Common.{
  codes, ℕ, ◌≡◌, ◌≢◌, refl, inr, some, List, [], ◌∷◌, ◌++◌, arith, ◌==◌, if◌then◌else◌,
}
use l_ost.Text.{Bytes}
use l_ost.Text.Spelling.{IsStr}
use l_ost.Shell.Commands.{parent_directory}
use l_ost.Shell.Directory.{NoSlash, parent_directory-path}
use l_ost.Shell.Editing.{
  Key, typed, back, edited, edited_all, drop_last, Fits, AllFit, Holds, edit_keys, edit_keys-Holds,
}

abbrev blank : Bytes
blank a = 0

blank-Holds : Holds blank 0x101000 []
blank-Holds = record { spelled = refl; blank = λ a from to. refl; short = omega arith }

abbrev keys : List Key
keys = typed b'u' ∷ typed b'x' ∷ back ∷ typed b's' ∷ []

keys-AllFit : AllFit [] keys
unfolding AllFit Fits edited drop_last
keys-AllFit = (
  (omega arith, omega arith, omega arith),
  (
    (omega arith, omega arith, omega arith),
    (omega arith, ((omega arith, omega arith, omega arith), omega arith)),
  ),
)

types_us : edited_all [] keys ≡ codes "us"
unfolding edited_all edited drop_last
types_us = refl

edit_keys-Holds_example :
    (m' : Bytes) × (edit_keys 0x8000 0x101000 keys blank ≡ some m')
    × Holds m' 0x101000 (edited_all [] keys)
edit_keys-Holds_example =
    edit_keys-Holds 0x8000 0x101000 keys [] blank blank-Holds (inr (omega arith)) (omega arith)
      keys-AllFit

-- "A:/b" at 0x2000.
abbrev board : Bytes
board a =
    if a == 0x2000
    then b'A'
    else if a == 0x2001
    then b':'
    else if a == 0x2002
    then b'/'
    else if a == 0x2003
    then b'b'
    else 0

board-IsStr : IsStr board 0x2000 (codes "A:" ++ b'/' ∷ codes "b")
board-IsStr =
    (refl, omega arith, (refl, omega arith, (refl, omega arith, (refl, omega arith, refl))))

b-NoSlash : NoSlash (codes "b")
unfolding NoSlash
b-NoSlash = (omega arith, omega arith)

parent_directory-path_example :
    (m' : Bytes) × (parent_directory 20 board 0x2000 ≡ some m')
    × IsStr m' 0x2000 (codes "A:")
    × ((a : ℕ) → a ≢ 0x2002 → m' a ≡ board a)
parent_directory-path_example =
    parent_directory-path b'A' (codes ":") (codes "b") 20 0x2000 board board-IsStr b-NoSlash
      (omega arith) (omega arith)
