-- ===== src/Keyboard/Events.antt =====
-- What the keyboard handler does with a scan code.
use l_ost.Common.{
  ℕ, ◌≡◌, ◌≢◌, refl, false, ◌&&◌, ◌||◌, not, Option, none, some, [], arith, ltb, ◌==◌,
  if◌then◌else◌,
}
use l_ost.Keyboard.{
  Keyboard, lshft, rshft, lalt, caps, translate, get_ascii, kb_listener, register_kb_listener,
  deliver, ps2_handler,
}

-- No key that is released, and no shift, caps or alt key, calls a listener or changes the last
-- character and key. Any other key that is pressed calls the registered listener once, with its
-- character under the present shift and caps state, if the driver is registered, and stores it.
pub ps2_handler_calls :
    (scancode : ℕ) (k : Keyboard)
    → let plain =
        ltb scancode 0x80
        && not (
            translate scancode == lshft
            || translate scancode == rshft
            || translate scancode == caps
            || translate scancode == lalt) in
      let c = get_ascii (translate scancode) (k.shift_down || k.caps_lock) false in
      let (k', calls) = ps2_handler scancode k in
      (calls ≡ (if plain && k.ps2_listener then kb_listener k c else []))
      × (k'.last_char ≡ (if plain then c else k.last_char))
      × (k'.last_key ≡ (if plain then scancode else k.last_key))
      × (k'.g_listener ≡ k.g_listener)
      × (k'.ps2_listener ≡ k.ps2_listener)
unfolding ps2_handler deliver kb_listener
ps2_handler_calls scancode k = ground arith

register_kb_listener_accepts :
    (l : ℕ) (k : Keyboard)
    → k.g_listener ≡ none
    → register_kb_listener (some l) k ≡ (0, record k { g_listener = some l })
unfolding register_kb_listener
register_kb_listener_accepts l k h = rw (h, register_kb_listener)

-- The first registration of a listener stays: it succeeds, and every later one is refused and
-- changes nothing.
pub register_kb_listener_first :
    (l : ℕ) (other : Option ℕ) (k : Keyboard)
    → k.g_listener ≡ none
    → ((register_kb_listener (some l) k).0 ≡ 0)
      × ((register_kb_listener other (register_kb_listener (some l) k).1).0 ≢ 0)
      × ((register_kb_listener other (register_kb_listener (some l) k).1).1.g_listener ≡ some l)
unfolding register_kb_listener
register_kb_listener_first l none k h =
    rw (register_kb_listener_accepts l k h) (refl, (λ e. cc), refl)
register_kb_listener_first l (some o) k h =
    rw (register_kb_listener_accepts l k h) (refl, (λ e. cc), refl)
