-- ===== src/Shell/Keys.antt =====
-- The keyboard's listener `getch` of kernel/eshell/eshell.c, and the start of the shell. `scratch` is
-- the address of the small array on the stack that holds a character and a null byte. `none` is a
-- walk past its fuel, or a null pointer that is followed.
use l_ost.Common.{
  codes, ℕ, zero, suc, ◌+◌, ◌-◌, ◌^◌, ◌&&◌, not, Option, none, some, List, [], ◌∷◌, ◌==◌,
  if◌then◌else◌, u32, slt, promote,
}
use l_ost.Memory.{kmalloc, kfree}
use l_ost.Text.{Bytes, store, kstrlen, kstrcat, kmemset, kmemcpy}
use l_ost.Shell.{Shell, show, echo}
use l_ost.Shell.Commands.{exec_command}

-- The characters from an address up to the null byte.
pub text_at : (fuel : ℕ) → Bytes → ℕ → Option (List ℕ)
text_at zero m p = none
text_at (suc fuel) m p =
    let rest = text_at fuel m (p + 1) in
    if m p == 0 then some [] else elim rest [ none ↦ none | some cs ↦ some (m p ∷ cs) ]

-- `char to_cat[2] = {c, 0}; kstrcat(at, at, to_cat);`.
unfoldable pub append_char : (fuel scratch at c : ℕ) → Bytes → Option Bytes
append_char fuel scratch at c m =
    kstrcat fuel at at scratch (store (store m scratch c) (scratch + 1) 0)

-- `current_command[kstrlen(current_command) - 1] = 0;`. On an empty line that is the byte before it.
unfoldable pub drop_char : (fuel at : ℕ) → Bytes → Option Bytes
drop_char fuel at m = elim (kstrlen fuel m at) [
  | none ↦ none
  | some n ↦ some (store m (u32 (at + n + 2 ^ 32 - 1)) 0)
]

-- The part of `getch` that edits the command line, on a character that is not a line feed.
unfoldable pub edit_line : (fuel scratch at c : ℕ) → Bytes → Option Bytes
edit_line fuel scratch at c m =
    if slt (promote c) 32
    then (if c == 8 then drop_char fuel at m else some m)
    else append_char fuel scratch at c m

-- The prompt behind a command.
pub prompt : (fuel : ℕ) → Shell → Option Shell
prompt fuel sh = elim (text_at fuel sh.memory sh.current_directory) [
  | none ↦ none
  | some directory ↦
      let shown = show (b'/' ∷ b'>' ∷ []) (show directory sh) in
      some (record shown {
        screen = record shown.screen { minx = shown.screen.x; miny = shown.screen.y };
      })
]

-- A new page for the next line, and the release of the last one.
pub next_line : Shell → Option Shell
next_line sh =
    elim (if sh.last_command == 0 then some sh.pages else kfree sh.last_command sh.pages) [
      | none ↦ none
      | some pages ↦
          let (address, pages') = kmalloc 1 6 pages in
          some (record sh {
            last_command = sh.current_command;
            current_command = address;
            pages = pages';
            memory = kmemset address 4096 0 sh.memory;
          })
    ]

-- `getch` on a line feed.
pub enter : (fuel count : ℕ) → Shell → Option Shell
enter fuel count sh = elim (text_at fuel sh.memory sh.current_command) [
  | none ↦ none
  | some command ↦ elim (exec_command fuel count command sh) [
    | none ↦ none
    | some sh1 ↦ elim (if not sh1.active_proc && not sh1.exit then prompt fuel sh1 else some sh1) [
      | none ↦ none
      | some sh2 ↦ next_line sh2
    ]
  ]
]

pub getch : (fuel count scratch c : ℕ) → Shell → Option Shell
getch fuel count scratch c sh = elim sh.stdin [
  | some stdin ↦ if stdin == 0 then some sh else elim (append_char fuel scratch stdin c sh.memory) [
    | none ↦ none
    | some m ↦ some (record sh { memory = m })
  ]
  | none ↦
      if sh.current_command == 0
      then some sh
      else if c == 10
      then enter fuel count (echo c sh)
      else elim (edit_line fuel scratch sh.current_command c (echo c sh).memory) [
        | none ↦ none
        | some m ↦ some (record (echo c sh) { memory = m })
      ]
]

-- `eshell` up to its endless loop. `literal` is the address of the text "A:". The registrations of the
-- two listeners are those of Serial and Keyboard, and the two bytes that hide the hardware's cursor
-- are left out.
pub start_shell : (fuel literal : ℕ) → Shell → Option Shell
start_shell fuel literal sh =
    let warned =
      show
        (codes
          "Warning: Execution of some programs may be limited, especially those which require command-line arguments\n")
        sh in
    let sh1 = show (codes "[      ] Initializing Shell") warned in
    let (directory, pages1) = kmalloc 1 6 sh1.pages in
    let (line, pages2) = kmalloc 1 6 pages1 in
    let sh2 : Shell = record sh1 {
      auto_send_return = not sh1.auto_send_return;
      current_directory = directory;
      current_command = line;
      pages = pages2;
      memory = kmemset line 4096 0 (kmemcpy literal directory 4 sh1.memory);
    } in
    prompt fuel (
      show (codes "Use the command 'help' to see builtin commands!\n")
        (show (codes "\r[ DONE ]\n") sh2))
