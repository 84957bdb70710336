-- ===== src/Serial/Wire.antt =====
-- Which bytes leave a port in kernel/drivers/serial.c.
use l_ost.Common.{
  ℕ, ◌≡◌, refl, sym, ap, ◌∙◌, inl, inr, Bool, false, ◌&&◌, List, [], ◌∷◌, ◌++◌, arith, ◌==◌,
  if◌then◌else◌, Bool-cases,
}
use mathlib.Core.List.{append-nil, append_assoc}
use l_ost.Serial.{ComDesc, Serial, outb, listen, serial_write, kputc, put_text}

-- What `kputc` makes of a character.
pub translated : (auto_send_return : Bool) → ℕ → List ℕ
translated auto c =
    if c == 8 then 8 ∷ b' ' ∷ 8 ∷ [] else if c == 10 && auto then 10 ∷ 13 ∷ [] else c ∷ []

pub on_port : (port : ℕ) → List ℕ → List (ℕ × ℕ)
on_port port [] = []
on_port port (c ∷ cs) = (port, c) ∷ on_port port cs

pub wire : (auto_send_return : Bool) → (port : ℕ) → List ℕ → List (ℕ × ℕ)
wire auto port [] = []
wire auto port (c ∷ cs) = on_port port (translated auto c) ++ wire auto port cs

pub wire-append :
    (auto : Bool) (port : ℕ) (xs ys : List ℕ)
    → wire auto port (xs ++ ys) ≡ wire auto port xs ++ wire auto port ys
unfolding wire
wire-append auto port [] ys = refl
wire-append auto port (x ∷ xs) ys =
    ap (λ o. on_port port (translated auto x) ++ o) (wire-append auto port xs ys)
    ∙ sym (append_assoc (on_port port (translated auto x)) (wire auto port xs) (wire auto port ys))

-- Port 0 is there, and the return goes with the line feed as `auto` says.
pub record Real (port : ℕ) (auto : Bool) (s : Serial) : Type 0 where
  pub base : s.com_base 0 ≡ port
  pub real : (s.com_desc 0).is_virtual ≡ false
  pub returns : s.auto_send_return ≡ auto

module _ (call : ℕ → ℕ → ℕ) where
  listen-virtual : (i c : ℕ) (d : ComDesc) → (listen call i c d).is_virtual ≡ d.is_virtual
  unfolding listen
  listen-virtual i c d = elim (Bool-cases (d.listeners i == 0)) [
    | inl e ↦ rw e refl
    | inr e ↦ rw e refl
  ]

  serial_write-sent :
      (c port : ℕ) (auto : Bool) (s : Serial)
      → Real port auto s
      → (serial_write call 0 c s).sent ≡ s.sent ++ (port, c) ∷ []
  unfolding serial_write outb
  serial_write-sent c port auto s r = rw (r.real, r.base) refl

  serial_write-Real :
      (c port : ℕ) (auto : Bool) (s : Serial)
      → Real port auto s
      → Real port auto (serial_write call 0 c s)
  unfolding serial_write outb
  serial_write-Real c port auto s r =
      let kept : (listen call 3 c
            (listen call 2 c (listen call 1 c (listen call 0 c (s.com_desc 0))))).is_virtual
          ≡ false =
        simp (listen-virtual, r.real) in
      simp r.real (record { base = r.base; real = kept; returns = r.returns })

  -- The bytes of `cs` one by one.
  send_all : List ℕ → Serial → Serial
  send_all [] s = s
  send_all (c ∷ cs) s = send_all cs (serial_write call 0 c s)

  send_all-Real :
      (cs : List ℕ) (port : ℕ) (auto : Bool) (s : Serial)
      → Real port auto s
      → Real port auto (send_all cs s) × ((send_all cs s).sent ≡ s.sent ++ on_port port cs)
  unfolding send_all on_port
  send_all-Real [] port auto s r = (r, sym (append-nil s.sent))
  send_all-Real (c ∷ cs) port auto s r =
      let (kept, out) =
        send_all-Real cs port auto (serial_write call 0 c s) (serial_write-Real c port auto s r) in
      (
        kept,
        out
            ∙ ap (λ o. o ++ on_port port cs) (serial_write-sent c port auto s r)
            ∙ append_assoc s.sent ((port, c) ∷ []) (on_port port cs),
      )

  kputc-send_all :
      (c port : ℕ) (auto : Bool) (s : Serial)
      → Real port auto s
      → kputc call c s ≡ send_all (translated auto c) s
  unfolding kputc send_all translated
  kputc-send_all c port auto s r = elim (Bool-cases (c == 8)) [
    | inl e ↦
        let is_8 : c ≡ 8 = ground arith in
        let plain : (c == 10) ≡ false = ground arith in rw (e, plain, is_8) refl
    | inr e ↦ elim (Bool-cases (c == 10)) [
      | inl f ↦
          let is_10 : c ≡ 10 = ground arith in
          elim (Bool-cases auto) [
            | inl a ↦ rw (is_10, r.returns, a) refl
            | inr a ↦ rw (is_10, r.returns, a) refl
          ]
      | inr f ↦ rw (e, f) refl
    ]
  ]

  on_port-append :
      (port : ℕ) (xs ys : List ℕ) → on_port port (xs ++ ys) ≡ on_port port xs ++ on_port port ys
  unfolding on_port
  on_port-append port [] ys = refl
  on_port-append port (x ∷ xs) ys = ap (λ o. (port, x) ∷ o) (on_port-append port xs ys)

  kputc-Real :
      (c port : ℕ) (auto : Bool) (s : Serial)
      → Real port auto s
      → Real port auto (kputc call c s)
        × ((kputc call c s).sent ≡ s.sent ++ on_port port (translated auto c))
  kputc-Real c port auto s r =
      rw (kputc-send_all c port auto s r) (send_all-Real (translated auto c) port auto s r)

  -- On a port that is there, a text goes out by its base port in its order, a backspace followed
  -- by a space and another backspace, and a line feed by a return when auto_send_return is set;
  -- the port stays as it is for the next text, whatever the listeners answer.
  pub put_text-wire :
      (cs : List ℕ) (port : ℕ) (auto : Bool) (s : Serial)
      → Real port auto s
      → Real port auto (put_text call cs s)
        × ((put_text call cs s).sent ≡ s.sent ++ wire auto port cs)
  unfolding put_text wire
  put_text-wire [] port auto s r = (r, sym (append-nil s.sent))
  put_text-wire (c ∷ cs) port auto s r =
      let (kept, out) = kputc-Real c port auto s r in
      let (kept', out') = put_text-wire cs port auto (kputc call c s) kept in
      (
        kept',
        out'
            ∙ ap (λ o. o ++ wire auto port cs) out
            ∙ append_assoc s.sent (on_port port (translated auto c)) (wire auto port cs),
      )
