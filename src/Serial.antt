-- ===== src/Serial.antt =====
-- The serial ports and the console of kernel/drivers/serial.c. What a listener's function returns is
-- `call`, an argument. `none` is a walk past its fuel, a missing argument of `kprintf`, or an index
-- that the source leaves unset.
pub mod Console
pub mod Printf
pub mod Wire
mod Tests
use l_ost.Common.{
  ℕ, zero, suc, ◌+◌, ◌-◌, ◌*◌, ◌/◌, ◌%◌, ◌^◌, ◌≤◌, ◌<◌, ◌≡◌, ◌≢◌, refl, sym, ap, ◌∙◌, ◌↔◌, ◌⊎◌, inl,
  inr, Bool, true, false, ◌&&◌, ◌||◌, not, Option, none, some, List, [], ◌∷◌, ◌++◌, arith,
  ℕ_discrete, dec_lt, ltb, leb, ◌==◌, if◌then◌else◌, Bool-cases, Option-cases, length, u8, u16, u32,
  mask, bit_field, slt, promote,
}
use l_ost.Text.{Bytes, Printed, null, text, ltostr}

-- `struct com_desc_s`. A listener is the address of its function.
pub record ComDesc : Type 0 where
  pub listeners : ℕ → ℕ
  pub listener_data_buffer : ℕ → ℕ → ℕ
  pub listner_data_index : ℕ → ℕ
  pub listner_keys : ℕ → ℕ
  pub is_virtual : Bool

-- `ports` (its `com` is `com_base`), the variables of the console, and the bytes that went out by `outb`, with their ports.
pub record Serial : Type 0 where
  pub com_base : ℕ → ℕ
  pub com_desc : ℕ → ComDesc
  pub padding : ℕ
  pub auto_send_return : Bool
  pub sent : List (ℕ × ℕ)

-- `f[i] = v`.
abbrev pub set_at : {A : Type 0} → (ℕ → A) → ℕ → A → ℕ → A
set_at f i v j = if j == i then v else f j

pub outb : (port value : ℕ) → Serial → Serial
outb port value s = record s { sent = s.sent ++ (port, value) ∷ [] }

-- Port `i` in `serial_init`. `echo` is what `inb` finds behind the byte sent in loopback mode.
pub init_port : (com_ports echo : ℕ → ℕ) → (i : ℕ) → Serial → Serial
init_port com_ports echo i s =
    let port = com_ports i in
    let failed = not (echo i == 0x41) in
    let tried : List (ℕ × ℕ) =
      (port + 1, 0)
      ∷ (port + 3, 0x80)
      ∷ (port, 3)
      ∷ (port + 1, 0)
      ∷ (port + 3, 3)
      ∷ (port + 2, 0xc7)
      ∷ (port + 4, 0xb)
      ∷ (port + 4, 0x1e)
      ∷ (port, 0x41)
      ∷ [] in
    record s {
      com_base = set_at s.com_base i port;
      com_desc = set_at s.com_desc i (record (s.com_desc i) {
        listeners = λ j. if ltb j 4 then 0 else (s.com_desc i).listeners j;
        is_virtual = failed;
      });
      sent = s.sent ++ tried ++ (if failed then [] else (port + 4, 0xe) ∷ []);
    }

pub failed_bit : (echo : ℕ → ℕ) → (i : ℕ) → ℕ
failed_bit echo i = if echo i == 0x41 then 0 else 2 ^ i

pub serial_init : (com_ports echo : ℕ → ℕ) → Serial → ℕ × Serial
serial_init com_ports echo s = (
  failed_bit echo 0 + failed_bit echo 1 + failed_bit echo 2 + failed_bit echo 3,
  init_port com_ports echo 3
      (init_port com_ports echo 2 (init_port com_ports echo 1 (init_port com_ports echo 0 s))),
)

-- The first index below 4 without a listener, or 0.
pub free_listener : ComDesc → ℕ
free_listener d =
    if d.listeners 0 == 0
    then 0
    else if d.listeners 1 == 0
    then 1
    else if d.listeners 2 == 0
    then 2
    else if d.listeners 3 == 0
    then 3
    else 0

-- `register_serial_listener`, with the key that `gen_driver_key` gives. The descriptor is always that
-- of port 0.
pub register_serial_listener : (listener port key : ℕ) → Serial → ℕ × Serial
register_serial_listener listener port key s =
    let index = free_listener (s.com_desc 0) in
    (
      key,
      record s {
        com_desc = set_at s.com_desc 0 (record (s.com_desc 0) {
          listner_keys = set_at (s.com_desc 0).listner_keys index key;
          listeners = set_at (s.com_desc 0).listeners index listener;
          listner_data_index = set_at (s.com_desc 0).listner_data_index index 0;
        });
      },
    )

-- The last index below 4 with the key.
pub find_key : (key : ℕ) → ComDesc → Option ℕ
find_key key d =
    if d.listner_keys 3 == key
    then some 3
    else if d.listner_keys 2 == key
    then some 2
    else if d.listner_keys 1 == key
    then some 1
    else if d.listner_keys 0 == key
    then some 0
    else none

pub deregister_serial_listener : (port key : ℕ) → Serial → Option Serial
deregister_serial_listener port key s = elim (find_key key (s.com_desc 0)) [
  | none ↦ none
  | some index ↦ some (record s {
    com_desc = set_at s.com_desc 0 (record (s.com_desc 0) {
      listeners = set_at (s.com_desc 0).listeners index 0;
      listner_data_index = set_at (s.com_desc 0).listner_data_index index 0;
      listner_keys = set_at (s.com_desc 0).listner_keys index 0;
    });
  })
]

pub serial_read : (inb : ℕ → ℕ) → (port : ℕ) → Serial → ℕ
serial_read inb port s = if (s.com_desc port).is_virtual then 0 else inb (s.com_base port)

pub toggle_auto_return : Serial → Serial
toggle_auto_return s = record s { auto_send_return = not s.auto_send_return }

-- Whether the `switch` of `kprintf` has a case for the letter.
pub takes_argument : ℕ → Bool
takes_argument d = d == b'c' || (d == b'd' || (d == b'x' || (d == b'o' || d == b's')))

module _ (call : ℕ → ℕ → ℕ) where
  -- Listener `i` gets the byte, where there is one.
  pub listen : (i c : ℕ) → ComDesc → ComDesc
  listen i c d = if d.listeners i == 0 then d else record d {
    listener_data_buffer =
        set_at d.listener_data_buffer i (
          set_at (d.listener_data_buffer i) (d.listner_data_index i) (u8 (call (d.listeners i) c)));
  }

  pub serial_write : (port c : ℕ) → Serial → Serial
  serial_write port c s =
      let heard = listen 3 c (listen 2 c (listen 1 c (listen 0 c (s.com_desc port)))) in
      let s' : Serial = record s { com_desc = set_at s.com_desc port heard } in
      if (s.com_desc port).is_virtual then s' else outb (s.com_base port) c s'

  pub kputc : ℕ → Serial → Serial
  kputc c s =
      let s1 = serial_write 0 c s in
      let s2 = if c == 8 then serial_write 0 8 (serial_write 0 b' ' s1) else s1 in
      if c == 10 && s.auto_send_return then serial_write 0 13 s2 else s2

  pub kputs : (fuel : ℕ) → Bytes → (s : ℕ) → Serial → Option Serial
  kputs zero m p s = none
  kputs (suc fuel) m p s =
      let rest = kputs fuel m (p + 1) (kputc (m p) s) in if m p == 0 then some s else rest

  -- `kputs` on the buffer of `ltostr`.
  pub put_text : List ℕ → Serial → Serial
  put_text [] s = s
  put_text (c ∷ cs) s = put_text cs (kputc c s)

  pub put_number : (number base padding : ℕ) → Serial → Option Serial
  put_number number base padding s = elim (ltostr number base padding) [
    | none ↦ none
    | some p ↦ elim p [ null ↦ none | text cs ↦ some (put_text cs s) ]
  ]

  pub kputd : (num : ℕ) → Serial → Option Serial
  kputd num s = put_number (if ltb num (2 ^ 31) then num else 2 ^ 32 - num) 10 s.padding s

  pub kputx : (num : ℕ) → Serial → Option Serial
  kputx num s = put_number num 16 s.padding s

  pub kputb : (num : ℕ) → Serial → Option Serial
  kputb num s = put_number num 2 s.padding s

  -- A case of the `switch` in `kprintf`, on the argument that it takes.
  pub convert : (fuel : ℕ) → Bytes → (d i : ℕ) → Serial → Option Serial
  convert fuel m d i s =
      if d == b'c'
      then some (kputc (u8 i) s)
      else if d == b'd'
      then (if ltb i (2 ^ 31) then kputd i s else kputd (2 ^ 32 - i) (kputc b'-' s))
      else if d == b'x'
      then kputx i s
      else if d == b'o'
      then put_number i 8 0 s
      else kputs fuel m i s

  -- The `switch` of `kprintf`, with the arguments that are left.
  pub directive : (fuel : ℕ) → Bytes → (d : ℕ) → List ℕ → Serial → Option (List ℕ × Serial)
  directive fuel m d args s =
      if takes_argument d
      then elim args [
        | [] ↦ none
        | i ∷ rest ↦ elim (convert fuel m d i s) [ none ↦ none | some s' ↦ some (rest, s') ]
      ]
      else some (args, s)

  -- The two loops of `kprintf`, which both end at a null byte, as one walk of `walk` steps.
  pub printf_from : (walk fuel : ℕ) → Bytes → (fmt : ℕ) → List ℕ → Serial → Option Serial
  printf_from zero fuel m fmt args s = none
  printf_from (suc walk) fuel m fmt args s = elim (m fmt == 0) [
    | true ↦ some s
    | false ↦ elim (m fmt == b'%') [
      | true ↦ elim (directive fuel m (m (fmt + 1)) args s) [
        | none ↦ none
        | some (args', s') ↦ printf_from walk fuel m (fmt + 2) args' s'
      ]
      | false ↦ printf_from walk fuel m (fmt + 1) args (kputc (m fmt) s)
    ]
  ]

  unfoldable pub kprintf : (fuel : ℕ) → Bytes → (format : ℕ) → List ℕ → Serial → Option Serial
  kprintf fuel m format args s = printf_from fuel fuel m format args s
