-- ===== src/Text/Formats.antt =====
-- `ksprintf` of kernel/memory/string.c against `kprintf` of kernel/drivers/serial.c, on the pieces of a
-- format.
use l_ost.Common.{
  length-append, ℕ, zero, suc, ◌+◌, ◌*◌, ◌/◌, ◌≤◌, ◌<◌, ◌≡◌, refl, sym, ap, ◌∙◌, inl, inr, true,
  some, List, [], ◌∷◌, ◌++◌, arith, ◌==◌, length,
}
use mathlib.Core.Path.{subst}
use mathlib.Core.List.{append-nil}
use l_ost.Memory.{Memory, kmalloc}
use l_ost.Text.{Bytes, kstrlen}
use l_ost.Text.Spelling.{IsStr, IsStr-move, kstrlen-length}
use l_ost.Text.Sprintf.{Sprintf, is_case, convert_case, sprintf_from, ksprintf}
use l_ost.Text.Sheet.{Untouched}
use l_ost.Text.Appends.{Placed, Page}
use l_ost.Text.Pieces.{
  Away, Away-Untouched, Fits, AllFit, Sound, step, Appends, step-Appends, sprintf_from-literal,
  sprintf_from-case, Finishes, Finishes-piece,
}
use l_ost.Serial.{Serial, put_text, kprintf}
use l_ost.Serial.Printf.{
  Piece, literal, character, decimal, hexadecimal, octal, string, spelled, format, arguments,
  output_of, output, WellFormed, AllWellFormed, kprintf-pieces,
}

module _ (fuel scratch buffer minus final size : ℕ) (m0 : Bytes) where
  Away-later :
      (p total q n : ℕ)
      → Away fuel scratch buffer minus final size m0 p total
      → p ≤ q
      → q + n ≤ p + total
      → Away fuel scratch buffer minus final size m0 q n
  Away-later p total q n (page, arrays, digits) lo hi = (
    elim page [ inl b ↦ inl (omega arith) | inr b ↦ inr (omega arith) ],
    elim arrays [ inl b ↦ inl (omega arith) | inr b ↦ inr (omega arith) ],
    elim digits [ inl b ↦ inl (omega arith) | inr b ↦ inr (omega arith) ],
  )

  -- What is left of the room behind a piece.
  later :
      (q : Piece) (qs : List Piece) (xs : List ℕ)
      → length xs + length (output 0 (q ∷ qs)) + 1 < size
      → length (xs ++ output_of 0 q) + length (output 0 qs) + 1 < size
  unfolding output
  later q qs xs room =
      omega
        (arith, room, length-append xs (output_of 0 q), length-append (output_of 0 q) (output 0 qs))

  module _ (p : Placed scratch buffer final size) (enough : size ≤ fuel)
      (dash : IsStr m0 minus (b'-' ∷ []))
      (dash_away : Away fuel scratch buffer minus final size m0 minus 1) where
    -- A conversion, and then the rest.
    case_piece :
        (q : Piece) (d i : ℕ) (qs : List Piece) (walk fmt : ℕ) (args xs : List ℕ) (s : Sprintf)
        → Page fuel scratch buffer minus final size m0 s.bytes xs
        → size ≡ 4096 * s.pages
        → m0 fmt ≡ b'%'
        → m0 (fmt + 1) ≡ d
        → is_case d ≡ true
        → step fuel scratch buffer minus final size m0 q s
          ≡ convert_case fuel scratch buffer minus final d i s
        → Untouched fuel scratch buffer minus final size m0 fmt
        → Untouched fuel scratch buffer minus final size m0 (fmt + 1)
        → WellFormed fuel m0 q
        → Fits fuel scratch buffer minus final size m0 q
        → Sound fuel scratch buffer minus final size m0 q
        → length xs + length (output 0 (q ∷ qs)) + 1 < size
        → ((m1 : Bytes)
            → Page fuel scratch buffer minus final size m0 m1 (xs ++ output_of 0 q)
            → Finishes fuel scratch buffer minus final size m0 p enough dash dash_away qs walk
                (fmt + 2)
                args
                (xs ++ output_of 0 q)
                (record s { bytes = m1 }))
        → Finishes fuel scratch buffer minus final size m0 p enough dash dash_away
            (q ∷ qs)
            (suc walk)
            fmt
            (i ∷ args)
            xs
            s
    unfolding output Appends
    case_piece q d i qs walk fmt args xs s h whole percent letter takes same out0 out1 wf fit sound
          room rest =
        let room' : length xs + length (output_of 0 q) + 1 < size =
          omega (arith, room, length-append (output_of 0 q) (output 0 qs)) in
        let (m1, run, h1) =
          step-Appends fuel scratch buffer minus final size m0 p enough dash dash_away q xs s h
            whole wf fit sound room' in
        Finishes-piece fuel scratch buffer minus final size m0 p enough dash dash_away q qs
          (suc walk) walk fmt (fmt + 2) (i ∷ args) args xs s m1
          (sprintf_from-case fuel scratch buffer minus final size m0 p enough dash dash_away walk
            fmt d i args s (record s { bytes = m1 }) (h.same fmt out0 ∙ percent)
            (h.same (fmt + 1) out1 ∙ letter) takes (sym same ∙ run))
          (rest m1 h1)

    sprintf_from-pieces :
        (qs : List Piece) (walk fmt : ℕ) (xs : List ℕ) (s : Sprintf)
        → Page fuel scratch buffer minus final size m0 s.bytes xs
        → size ≡ 4096 * s.pages
        → IsStr m0 fmt (format qs)
        → Away fuel scratch buffer minus final size m0 fmt (length (format qs))
        → AllWellFormed fuel m0 qs
        → AllFit fuel scratch buffer minus final size m0 qs
        → length xs + length (output 0 qs) + 1 < size
        → length (format qs) < walk
        → Finishes fuel scratch buffer minus final size m0 p enough dash dash_away qs walk fmt
            (arguments qs)
            xs
            s
    unfolding format arguments spelled AllWellFormed WellFormed AllFit Finishes Sound is_case
        sprintf_from step output Appends
    sprintf_from-pieces qs zero fmt xs s h whole written away wf fit room walked =
        absurd (omega arith)
    sprintf_from-pieces [] (suc walk) fmt xs s h whole written away wf fit room walked =
        let ended : s.bytes fmt ≡ 0 =
          h.same fmt (
            Away-Untouched fuel scratch buffer minus final size m0 fmt 0 fmt away (omega arith)
              (omega arith))
          ∙ written in
        let zeroth : (s.bytes fmt == 0) ≡ true = ground (arith, ended) in
        (
          s.bytes,
          rw (sprintf_from, zeroth) refl,
          subst (Page fuel scratch buffer minus final size m0 s.bytes) (sym (append-nil xs)) h,
        )
    sprintf_from-pieces (literal c ∷ qs) (suc walk) fmt xs s h whole written away wf fit room
          walked =
        let room' : length xs + length (output_of 0 (literal c)) + 1 < size =
          omega (arith, room, length-append (output_of 0 (literal c)) (output 0 qs)) in
        let (m1, run, h1) =
          step-Appends fuel scratch buffer minus final size m0 p enough dash dash_away (literal c)
            xs s h whole wf.0 fit.0 written.1 room' in
        Finishes-piece fuel scratch buffer minus final size m0 p enough dash dash_away (literal c)
          qs (suc walk) walk fmt (fmt + 1) (arguments qs) (arguments qs) xs s m1
          (sprintf_from-literal fuel scratch buffer minus final size m0 p enough dash dash_away walk
            fmt c (arguments qs) s (record s { bytes = m1 })
            (h.same fmt (
                Away-Untouched fuel scratch buffer minus final size m0 fmt
                  (suc (length (format qs))) fmt away (omega arith) (omega arith))
              ∙ written.0)
            written.1 wf.0 run)
          (sprintf_from-pieces qs walk (fmt + 1) (xs ++ output_of 0 (literal c))
            (record s { bytes = m1 }) h1 whole written.2
            (Away-later fmt (suc (length (format qs))) (fmt + 1) (length (format qs)) away
              (omega arith) (omega arith))
            wf.1 fit.1 (later (literal c) qs xs room) (omega (arith, walked)))
    sprintf_from-pieces (character i ∷ qs) (suc walk) fmt xs s h whole written away wf fit room
          walked =
        case_piece (character i) b'c' i qs walk fmt (arguments qs) xs s h whole written.0
          written.2.0 refl refl
          (Away-Untouched fuel scratch buffer minus final size m0 fmt
            (suc (suc (length (format qs)))) fmt away (omega arith) (omega arith))
          (Away-Untouched fuel scratch buffer minus final size m0 fmt
            (suc (suc (length (format qs)))) (fmt + 1) away (omega arith) (omega arith))
          wf.0 fit.0 (omega arith) room
          (λ m1 h1.
            sprintf_from-pieces qs walk (fmt + 2) (xs ++ output_of 0 (character i))
              (record s { bytes = m1 }) h1 whole
              (IsStr-move m0 (format qs) (fmt + 1 + 1) (fmt + 2) (omega arith) written.2.2)
              (Away-later fmt (suc (suc (length (format qs)))) (fmt + 2) (length (format qs)) away
                (omega arith) (omega arith))
              wf.1 fit.1 (later (character i) qs xs room) (omega (arith, walked)))
    sprintf_from-pieces (decimal i ∷ qs) (suc walk) fmt xs s h whole written away wf fit room
          walked =
        case_piece (decimal i) b'd' i qs walk fmt (arguments qs) xs s h whole written.0 written.2.0
          refl refl
          (Away-Untouched fuel scratch buffer minus final size m0 fmt
            (suc (suc (length (format qs)))) fmt away (omega arith) (omega arith))
          (Away-Untouched fuel scratch buffer minus final size m0 fmt
            (suc (suc (length (format qs)))) (fmt + 1) away (omega arith) (omega arith))
          wf.0 fit.0 (omega arith) room
          (λ m1 h1.
            sprintf_from-pieces qs walk (fmt + 2) (xs ++ output_of 0 (decimal i))
              (record s { bytes = m1 }) h1 whole
              (IsStr-move m0 (format qs) (fmt + 1 + 1) (fmt + 2) (omega arith) written.2.2)
              (Away-later fmt (suc (suc (length (format qs)))) (fmt + 2) (length (format qs)) away
                (omega arith) (omega arith))
              wf.1 fit.1 (later (decimal i) qs xs room) (omega (arith, walked)))
    sprintf_from-pieces (hexadecimal i ∷ qs) (suc walk) fmt xs s h whole written away wf fit room
          walked =
        case_piece (hexadecimal i) b'x' i qs walk fmt (arguments qs) xs s h whole written.0
          written.2.0 refl refl
          (Away-Untouched fuel scratch buffer minus final size m0 fmt
            (suc (suc (length (format qs)))) fmt away (omega arith) (omega arith))
          (Away-Untouched fuel scratch buffer minus final size m0 fmt
            (suc (suc (length (format qs)))) (fmt + 1) away (omega arith) (omega arith))
          wf.0 fit.0 (omega arith) room
          (λ m1 h1.
            sprintf_from-pieces qs walk (fmt + 2) (xs ++ output_of 0 (hexadecimal i))
              (record s { bytes = m1 }) h1 whole
              (IsStr-move m0 (format qs) (fmt + 1 + 1) (fmt + 2) (omega arith) written.2.2)
              (Away-later fmt (suc (suc (length (format qs)))) (fmt + 2) (length (format qs)) away
                (omega arith) (omega arith))
              wf.1 fit.1 (later (hexadecimal i) qs xs room) (omega (arith, walked)))
    sprintf_from-pieces (octal i ∷ qs) (suc walk) fmt xs s h whole written away wf fit room walked =
        case_piece (octal i) b'o' i qs walk fmt (arguments qs) xs s h whole written.0 written.2.0
          refl refl
          (Away-Untouched fuel scratch buffer minus final size m0 fmt
            (suc (suc (length (format qs)))) fmt away (omega arith) (omega arith))
          (Away-Untouched fuel scratch buffer minus final size m0 fmt
            (suc (suc (length (format qs)))) (fmt + 1) away (omega arith) (omega arith))
          wf.0 fit.0 (omega arith) room
          (λ m1 h1.
            sprintf_from-pieces qs walk (fmt + 2) (xs ++ output_of 0 (octal i))
              (record s { bytes = m1 }) h1 whole
              (IsStr-move m0 (format qs) (fmt + 1 + 1) (fmt + 2) (omega arith) written.2.2)
              (Away-later fmt (suc (suc (length (format qs)))) (fmt + 2) (length (format qs)) away
                (omega arith) (omega arith))
              wf.1 fit.1 (later (octal i) qs xs room) (omega (arith, walked)))
    sprintf_from-pieces (string str ys ∷ qs) (suc walk) fmt xs s h whole written away wf fit room
          walked =
        case_piece (string str ys) b's' str qs walk fmt (arguments qs) xs s h whole written.0
          written.2.0 refl refl
          (Away-Untouched fuel scratch buffer minus final size m0 fmt
            (suc (suc (length (format qs)))) fmt away (omega arith) (omega arith))
          (Away-Untouched fuel scratch buffer minus final size m0 fmt
            (suc (suc (length (format qs)))) (fmt + 1) away (omega arith) (omega arith))
          wf.0 fit.0 (omega arith) room
          (λ m1 h1.
            sprintf_from-pieces qs walk (fmt + 2) (xs ++ output_of 0 (string str ys))
              (record s { bytes = m1 }) h1 whole
              (IsStr-move m0 (format qs) (fmt + 1 + 1) (fmt + 2) (omega arith) written.2.2)
              (Away-later fmt (suc (suc (length (format qs)))) (fmt + 2) (length (format qs)) away
                (omega arith) (omega arith))
              wf.1 fit.1 (later (string str ys) qs xs room) (omega (arith, walked)))

ksprintf-run :
    (n fuel scratch buffer minus fmt final : ℕ) (args : List ℕ) (memory taken : Memory) (m : Bytes)
    (s : Sprintf)
    → kstrlen fuel m fmt ≡ some n
    → kmalloc (n / 4096 + 1) 6 memory ≡ (final, taken)
    → sprintf_from fuel scratch buffer minus final fuel fmt args
        (record { memory = taken; bytes = m; pages = n / 4096 + 1 })
      ≡ some s
    → ksprintf fuel scratch buffer minus fmt args memory m ≡ some (final, s)
unfolding ksprintf
ksprintf-run n fuel scratch buffer minus fmt final args memory taken m s measured given run =
    let address = ap (λ r. r.0) given in
    let rest = ap (λ r. r.1) given in rw (ksprintf, measured, address, rest, run, address) refl

-- Where `kmalloc` gives `ksprintf` a blank page or more for the format, which lie apart from its arrays,
-- from the buffer of ltostr and from the strings, and the printed text has its place in them:
-- ksprintf comes back with their address and the text of the literals, characters, digits and
-- strings of the format in their order, and kprintf of the same format and arguments sends exactly
-- that text to kputc, where its padding is 0; for conversions whose characters are not null bytes, and
-- with fuel for the pages.
pub ksprintf-kprintf :
    (call : ℕ → ℕ → ℕ) (qs : List Piece) (fuel scratch buffer minus fmt final : ℕ)
    (memory taken : Memory) (m : Bytes) (s : Serial)
    → let pages = length (format qs) / 4096 + 1 in
      let size = 4096 * pages in
      kmalloc pages 6 memory ≡ (final, taken)
      → ((a : ℕ) → final ≤ a → a < final + size → m a ≡ 0)
      → Placed scratch buffer final size
      → IsStr m minus (b'-' ∷ [])
      → Away fuel scratch buffer minus final size m minus 1
      → IsStr m fmt (format qs)
      → Away fuel scratch buffer minus final size m fmt (length (format qs))
      → AllWellFormed fuel m qs
      → AllFit fuel scratch buffer minus final size m qs
      → length (output 0 qs) + 1 < size
      → size ≤ fuel
      → s.padding ≡ 0
      → (m' : Bytes) × (ksprintf fuel scratch buffer minus fmt (arguments qs) memory m
          ≡ some (final, record { memory = taken; bytes = m'; pages = pages }))
        × IsStr m' final (output 0 qs)
        × (kprintf call fuel m fmt (arguments qs) s ≡ some (put_text call (output 0 qs) s))
unfolding Finishes
ksprintf-kprintf call qs fuel scratch buffer minus fmt final memory taken m s given blank p dash
      dash_away written away wf fit room enough unpadded =
    let pages = length (format qs) / 4096 + 1 in
    let start : Sprintf = record { memory = taken; bytes = m; pages = pages } in
    let h : Page fuel scratch buffer minus final (4096 * pages) m m [] = record {
      spelled = blank final (omega arith) (omega arith);
      blank = λ a lo hi. blank a (omega arith) hi;
      short = omega arith;
      same = λ a out. refl;
    } in
    let measured = kstrlen-length (format qs) fuel fmt m written (omega (arith, enough)) in
    let (m', run, h') =
      sprintf_from-pieces fuel scratch buffer minus final (4096 * pages) m p enough dash dash_away
        qs fuel fmt [] start h refl written away wf fit (omega (arith, room))
        (omega (arith, enough)) in
    (
      m',
      ksprintf-run (length (format qs)) fuel scratch buffer minus fmt final (arguments qs) memory
          taken m _ measured given run,
      h'.spelled,
      subst (λ n. kprintf call fuel m fmt (arguments qs) s ≡ some (put_text call (output n qs) s))
          unpadded
          (kprintf-pieces call qs fuel fmt m s written wf (omega (arith, unpadded))
            (omega (arith, enough))),
    )
