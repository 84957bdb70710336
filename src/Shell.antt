-- ===== src/Shell.antt =====
-- The emergency shell of kernel/eshell/eshell.c: its variables, and what it prints. The command line,
-- the last command and the current directory are strings in memory; a text that the source writes
-- as a literal is a list of bytes. While the shell runs, `write_screen_char` is a listener of the
-- first serial port, so what `kprintf` sends goes to the screen as well.
pub mod Commands
pub mod Keys
pub mod Directory
pub mod Editing
mod Tests
use l_ost.Common.{
  ℕ, zero, suc, ◌+◌, ◌-◌, ◌*◌, ◌/◌, ◌%◌, ◌^◌, ◌≤◌, ◌<◌, ◌≡◌, ◌≢◌, refl, sym, ap, ◌∙◌, ◌↔◌, ◌⊎◌, inl,
  inr, Bool, true, false, ◌&&◌, ◌||◌, not, Option, none, some, List, [], ◌∷◌, ◌++◌, arith,
  ℕ_discrete, dec_lt, ltb, leb, ◌==◌, if◌then◌else◌, Bool-cases, Option-cases, length, u8, u16, u32,
  mask, bit_field, slt, promote,
}
use l_ost.Memory.{Memory}
use l_ost.Text.{Bytes}
use l_ost.Screen.{Screen, write_screen}
use l_ost.Serial.Printf.{Piece, output}
use l_ost.Serial.Wire.{translated}
use l_ost.Storage.{Storage}

-- The variables of the file that its functions use, with the memory, the page table, the screen and
-- the tables of drives. `user` is the name of the current user, where it is valid. `sent` are the
-- bytes that went to the serial port.
pub record Shell : Type 0 where
  pub memory : Bytes
  pub pages : Memory
  pub screen : Screen
  pub storage : Storage
  pub current_command : ℕ
  pub last_command : ℕ
  pub current_directory : ℕ
  pub exit : Bool
  pub user : Option (List ℕ)
  pub active_proc : Bool
  -- the input of the running program, where one runs
  pub stdin : Option ℕ
  pub auto_send_return : Bool
  pub padding : ℕ
  pub sent : List ℕ

-- A text by `write_screen`.
pub show : List ℕ → Shell → Shell
show str sh = record sh { screen = write_screen str sh.screen }

-- A character by `kputc`.
pub echo : (c : ℕ) → Shell → Shell
echo c sh =
    let bytes = translated sh.auto_send_return c in
    record sh { screen = write_screen bytes sh.screen; sent = sh.sent ++ bytes }

pub echo_all : List ℕ → Shell → Shell
echo_all [] sh = sh
echo_all (c ∷ cs) sh = echo_all cs (echo c sh)

-- A format by `kprintf`, in pieces.
pub print : List Piece → Shell → Shell
print pieces sh = echo_all (output sh.padding pieces) sh
