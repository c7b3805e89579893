-- ===== src/Keyboard/Tests.antt =====
-- Keys under caps lock and shift.
use project_k.Base.{◌≡◌, refl, true, false, arith, [], ◌∷◌}
use project_k.Base.Int.{pos}
use project_k.Bus.{Hardware, read}
use project_k.Keyboard.{
  Keyboard, scan_code_chars, alternate_chars, isalpha, pressed, on_scancode, get_key, take_char,
  take_scancode,
}
use project_k.Keyboard.Typing.{typed, on_scancode-typed}

abbrev shifted : Keyboard
shifted = record {
  caps_lock = false;
  shift_pressed = true;
  key = pos 0;
  ch = 0;
  printed = [];
  bus = [];
}

on_scancode-typed_example :
    on_scancode (pos 3) shifted
    ≡ record shifted { ch = b'@'; printed = b'@' ∷ []; shift_pressed = false }
unfolding typed scan_code_chars alternate_chars isalpha
on_scancode-typed_example =
    on_scancode-typed 3 shifted (omega arith) (λ e. omega arith) (λ e. omega arith)
      (λ e. omega arith) (λ e. omega arith)

-- The controller has a byte from the second reading of its status on; each answers 0x1F.
abbrev controller : Hardware
controller [] port = 0
controller (e ∷ bus) port = 0x1F

key_run : get_key controller 5 [] ≡ (pos 0x1F, read 0x60 0x1F ∷ read 0x64 0x1F ∷ read 0x64 0 ∷ [])
unfolding get_key
key_run = refl

-- Caps lock is on after one press and off after two.
lock_run : (pressed 58 (pressed 58 shifted)).caps_lock ≡ false
unfolding pressed
lock_run = refl

take_run : (take_char (take_scancode shifted).1).0 ≡ 0
unfolding take_char take_scancode
take_run = refl
