-- ===== src/Shell/Commands.antt =====
-- `exec_command` of kernel/eshell/eshell.c.
use l_ost.Common.{
  codes, ℕ, zero, suc, ◌+◌, ◌-◌, ◌*◌, ◌/◌, ◌^◌, Bool, true, false, ◌&&◌, Option, none, some, List,
  [], ◌∷◌, ◌++◌, ltb, ◌==◌, if◌then◌else◌, u32, promote,
}
use mathlib.Core.List.{map}
use l_ost.Memory.{page_size, get_used_pages, get_free_pages}
use l_ost.Text.{Bytes, kstrlen, store}
use l_ost.Serial.Printf.{Piece, literal, character, decimal}
use l_ost.Storage.{Drive, get_drive, get_fs, get_drive_count, get_fs_count}
use l_ost.Shell.{Shell, show, print}

-- Whether two texts are one, as `kstrcmp` tells by 0.
pub same_text : List ℕ → List ℕ → Bool
same_text [] [] = true
same_text [] (d ∷ ds) = false
same_text (c ∷ cs) [] = false
same_text (c ∷ cs) (d ∷ ds) = c == d && same_text cs ds

-- The characters of a text as pieces of a format.
pub literals : List ℕ → List Piece
literals = map literal

-- `disk_types_ids[t]` and `drive_type_strs[t]`, for one of the seven types.
pub disk_type_id : ℕ → List ℕ
disk_type_id t =
    if t == 0
    then codes "nl"
    else if t == 1
    then codes "vd"
    else if t == 2
    then codes "fd"
    else if t == 3
    then codes "hd"
    else if t == 4
    then codes "dd"
    else if t == 5
    then codes "sd"
    else codes "us"

pub drive_type_str : ℕ → List ℕ
drive_type_str t =
    if t == 0
    then codes "NULL  "
    else if t == 1
    then codes "VIRTL "
    else if t == 2
    then codes "FLOPPY"
    else if t == 3
    then codes "PATA  "
    else if t == 4
    then codes "ATAPI "
    else if t == 5
    then codes "SATA  "
    else codes "USB   "

-- The line on drive `i`.
pub disk_line : (i : ℕ) → Drive → List Piece
disk_line i d =
    literals (disk_type_id d.drive_type)
    ++ character (b'a' + i) ∷ literals (codes ":\n\tType: ")
    ++ literals (drive_type_str d.drive_type)
    ++ literals (codes "\n\tSize: ")
    ++ decimal (u32 (d.size_low * d.bytes_per_sector) / 1024 / 1024)
      ∷ literals (codes "MB\n\tBytes Per Sector: ")
    ++ decimal d.bytes_per_sector ∷ literals (codes "\n")

-- The loop of the command "disks", over `n` drives from `i` on.
pub show_disks : (n i : ℕ) → Shell → Shell
show_disks zero i sh = sh
show_disks (suc n) i sh =
    show_disks n (i + 1)
      (elim (get_drive i sh.storage) [ none ↦ sh | some d ↦ print (disk_line i d) sh ])

pub disks : Shell → Shell
disks sh = show_disks 26 0 (show (codes "Showing mounted Disks\n") sh)

pub meminfo : Shell → Shell
meminfo sh =
    let used_pages = get_used_pages sh.pages in
    let used_mem = u32 (used_pages * page_size) in
    let free_pages = get_free_pages sh.pages in
    let free_mem = u32 (free_pages * page_size) in
    print
      (literals (codes "(")
        ++ decimal (used_mem / 1024 / 1024) ∷ literals (codes "Mb/")
        ++ decimal (u32 (used_mem + free_mem) / 1024 / 1024) ∷ literals (codes "Mb)\n"))
      (print
        (literals (codes "Used Pages: ")
          ++ decimal used_pages ∷ literals (codes ", Free Pages: ")
          ++ decimal free_pages ∷ literals (codes "\nUsed Memory (Bytes): ")
          ++ decimal used_mem ∷ literals (codes ", Free Memory (Bytes): ")
          ++ decimal free_mem ∷ literals (codes "\nTotal Memory (Pages) ")
          ++ decimal (u32 (free_pages + used_pages)) ∷ literals (codes ", Total Memory (Bytes): ")
          ++ decimal (u32 (used_mem + free_mem)) ∷ literals (codes "\n"))
        sh)

-- `clear`: `kmemset` fills the first 24 rows with null cells.
pub clear : Shell → Shell
clear sh = record sh {
  screen = record sh.screen {
    cells = λ i. if ltb i 1920 then 0 else sh.screen.cells i;
    x = 1;
    y = 0;
  };
}

-- `while(current_directory[i]) { if(current_directory[i] == '/') last = i; i++; }`.
unfoldable pub last_slash : (fuel : ℕ) → Bytes → (at i last : ℕ) → Option ℕ
last_slash zero m at i last = none
last_slash (suc fuel) m at i last =
    let rest = last_slash fuel m at (i + 1) (if m (at + i) == b'/' then i else last) in
    if m (at + i) == 0 then some last else rest

-- The command "cd ../" on a directory's string.
unfoldable pub parent_directory : (fuel : ℕ) → Bytes → (at : ℕ) → Option Bytes
parent_directory fuel m at = elim (kstrlen fuel m at) [
  | none ↦ none
  | some n ↦ if ltb n 3 then some m else elim (last_slash fuel m at 1 0) [
    | none ↦ none
    | some last ↦ some (store m (at + last) 0)
  ]
]

pub cd_up : (fuel : ℕ) → Shell → Option Shell
cd_up fuel sh = elim (parent_directory fuel sh.memory sh.current_directory) [
  | none ↦ none
  | some m ↦ some (record sh { memory = m })
]

pub show_user : Shell → Shell
show_user sh = show (elim sh.user [ none ↦ codes "lOSt\n" | some name ↦ name ]) sh

-- `count` is what the variable of get_drive_count holds at first.
pub osinfo : (count : ℕ) → Shell → Shell
osinfo count sh =
    print
      (literals (codes "Mounted Drives: ")
        ++ decimal (get_drive_count count sh.storage) ∷ literals (codes ", Mounted Filesystems: ")
        ++ decimal (get_fs_count sh.storage) ∷ literals (codes "\n"))
      (print (literals (codes "Kernel: lOSt 0.1.0\nShell: lOSt EShell 0.1.0\n")) sh)

pub help : Shell → Shell
help = show (
    codes
      "osinfo: Display information about the OS\nuser: Display username\nmeminfo: Show information about memory usage\ndisks: Show information about mounted disks\nclear: Clear the screen\nexit: Exit the shell enviornment\n")

abbrev flag : Bool → ℕ
flag b = if b then 1 else 0

-- The command "fsinfo" on the filesystem that the first letter of the directory names; the source
-- follows the null pointer where there is none.
pub fsinfo : Shell → Option Shell
fsinfo sh =
    let index = u32 (promote (sh.memory sh.current_directory) + 2 ^ 32 - b'A') in
    elim (get_fs index sh.storage) [
      | none ↦ none
      | some fs ↦ some (
          print
            (literals (codes "Drive: ")
              ++ decimal fs.drive ∷ literals (codes ", MountedID: ")
              ++ decimal fs.mount_id ∷ literals (codes ", Read Only: ")
              ++ decimal (flag fs.read_only) ∷ literals (codes "\nPartition: ")
              ++ decimal fs.partition ∷ literals (codes ", Size (Sectors): ")
              ++ decimal fs.size_low ∷ literals (codes ", Sector Size: ")
              ++ decimal fs.sector_size_bytes ∷ literals (codes "\nType: ")
              ++ decimal fs.fs_type ∷ literals (codes "\n"))
            (print (decimal index ∷ []) sh))
    ]

-- `exec_command` on the text of its argument.
pub exec_command : (fuel count : ℕ) → List ℕ → Shell → Option Shell
exec_command fuel count command sh =
    if same_text command []
    then some sh
    else if same_text command (codes "exit")
    then some (record (show (codes "exiting...\n") sh) { exit = true })
    else if same_text command (codes "clear")
    then some (clear sh)
    else if same_text command (codes "disks")
    then some (disks sh)
    else if same_text command (codes "meminfo")
    then some (meminfo sh)
    else if same_text command (codes "cd ../")
    then cd_up fuel sh
    else if same_text command (codes "user")
    then some (show_user sh)
    else if same_text command (codes "osinfo")
    then some (osinfo count sh)
    else if same_text command (codes "help")
    then some (help sh)
    else if same_text command (codes "fsinfo")
    then fsinfo sh
    else some sh
