-- ===== src/Text/Appends.antt =====
-- The steps of `ksprintf` of kernel/memory/string.c on a page with room.
use l_ost.Common.{
  ℕ, ◌+◌, ◌*◌, ◌^◌, ◌≤◌, ◌<◌, ◌≡◌, ◌≢◌, refl, ◌⊎◌, inl, inr, false, some, List, [], ◌∷◌, ◌++◌,
  arith, leb, length,
}
use l_ost.Text.{Bytes, store, text, ltostr}
use l_ost.Text.Spelling.{IsStr, kstrlen-length}
use l_ost.Text.Sprintf.{Sprintf, ltostr_at, grow, append_letter, append_number, append_string}
use l_ost.Text.Sheet.{Sheet, Sheet-frame, append-Sheet, ltostr_at-text}

-- The arrays and the buffer lie outside the page.
pub record Placed (scratch buffer final size : ℕ) : Type 0 where
  pub scratch_apart : (scratch + 1 < final) ⊎ (final + size ≤ scratch)
  pub buffer_apart : (buffer + 50 < final) ⊎ (final + size ≤ buffer)

module _ (fuel scratch buffer minus final size : ℕ) (m0 : Bytes) where
  abbrev pub Page : Bytes → List ℕ → Type 0
  Page = Sheet fuel scratch buffer minus final size m0

  -- Where there is room, nothing grows.
  pub grow-room :
      (xs : List ℕ) (extra : ℕ) (s : Sprintf)
      → Page s.bytes xs
      → length xs + extra < 4096 * s.pages
      → size ≤ fuel
      → grow fuel scratch buffer minus final extra s ≡ some s
  unfolding grow
  grow-room xs extra s h room enough =
      let short = h.short in
      let measured = kstrlen-length xs fuel final s.bytes h.spelled (omega arith) in
      let stays : leb (4096 * s.pages) (length xs + extra) ≡ false = ground (arith, room) in
      rw (grow, measured, stays) refl

  pub append_letter-Sheet :
      (xs : List ℕ) (c : ℕ) (s : Sprintf)
      → Page s.bytes xs
      → Placed scratch buffer final size
      → c ≢ 0
      → length xs + 1 < size
      → size ≤ fuel
      → (m' : Bytes) × (append_letter fuel scratch buffer minus final c s
          ≡ some (record s { bytes = m' }))
        × Page m' (xs ++ c ∷ [])
  unfolding append_letter
  append_letter-Sheet xs c s h p nonzero room enough =
      let m1 : Bytes = store (store s.bytes scratch c) (scratch + 1) 0 in
      let apart = p.scratch_apart in
      let h1 =
        Sheet-frame fuel scratch buffer minus final size m0 xs s.bytes m1 h
          (λ a lo hi. ground (arith, apart, lo, hi))
          (λ a out. let away = out.1 in ground (arith, away)) in
      append-Sheet fuel scratch buffer minus final size m0 xs (c ∷ []) scratch
        (record s { bytes = m1 }) h1 (ground arith, nonzero, ground arith)
        (elim apart [ inl before ↦ inl (omega arith) | inr behind ↦ inr behind ]) (omega arith)
        enough

  -- The buffer is written, and the page stays.
  ltostr_at-Sheet :
      (xs cs : List ℕ) (number base : ℕ) (m : Bytes)
      → Page m xs
      → Placed scratch buffer final size
      → number < 2 ^ 32
      → 2 ≤ base
      → ltostr number base 0 ≡ some (text cs)
      → (ret : ℕ) × (m' : Bytes) × (ltostr_at buffer number base m ≡ some (ret, m'))
        × IsStr m' ret cs
        × ((ret + length cs < final) ⊎ (final + size ≤ ret))
        × Page m' xs
  ltostr_at-Sheet xs cs number base m h p wide two printed =
      let (ret, m', run, written, lo, hi, same) =
        ltostr_at-text buffer number base cs m wide two printed in
      let apart = p.buffer_apart in
      (
        ret,
        m',
        run,
        written,
        elim apart [ inl before ↦ inl (omega arith) | inr behind ↦ inr (omega arith) ],
        Sheet-frame fuel scratch buffer minus final size m0 xs m m' h
            (λ a from to.
              same a
                (elim apart [ inl before ↦ inr (omega arith) | inr behind ↦ inl (omega arith) ]))
            (λ a out. same a out.2),
      )

  pub append_number-Sheet :
      (xs cs : List ℕ) (i base : ℕ) (s : Sprintf)
      → Page s.bytes xs
      → Placed scratch buffer final size
      → i < 2 ^ 32
      → 2 ≤ base
      → ltostr i base 0 ≡ some (text cs)
      → size ≡ 4096 * s.pages
      → length xs + length cs < size
      → size ≤ fuel
      → (m' : Bytes) × (append_number fuel scratch buffer minus final i base s
          ≡ some (record s { bytes = m' }))
        × Page m' (xs ++ cs)
  unfolding append_number
  append_number-Sheet xs cs i base s h p wide two printed whole room enough =
      let (ret1, m1, run1, written1, apart1, h1) =
        ltostr_at-Sheet xs cs i base s.bytes h p wide two printed in
      let measured = kstrlen-length cs fuel ret1 m1 written1 (omega (arith, room, enough)) in
      let stays =
        grow-room xs (length cs) (record s { bytes = m1 }) h1 (omega (arith, room, whole)) enough in
      let (ret2, m2, run2, written2, apart2, h2) =
        ltostr_at-Sheet xs cs i base m1 h1 p wide two printed in
      let (m', run, h') =
        append-Sheet fuel scratch buffer minus final size m0 xs cs ret2 (record s { bytes = m2 }) h2
          written2 apart2 room enough in
      (m', rw (append_number, run1, measured, stays, run2) run, h')

  pub append_string-Sheet :
      (xs ys : List ℕ) (str : ℕ) (s : Sprintf)
      → Page s.bytes xs
      → IsStr s.bytes str ys
      → (str + length ys < final) ⊎ (final + size ≤ str)
      → size ≡ 4096 * s.pages
      → length xs + length ys < size
      → size ≤ fuel
      → (m' : Bytes) × (append_string fuel scratch buffer minus final str s
          ≡ some (record s { bytes = m' }))
        × Page m' (xs ++ ys)
  unfolding append_string
  append_string-Sheet xs ys str s h written apart whole room enough =
      let measured = kstrlen-length ys fuel str s.bytes written (omega (arith, room, enough)) in
      let stays = grow-room xs (length ys) s h (omega (arith, room, whole)) enough in
      let (m', run, h') =
        append-Sheet fuel scratch buffer minus final size m0 xs ys str s h written apart room
          enough in
      (m', rw (append_string, measured, stays) run, h')
