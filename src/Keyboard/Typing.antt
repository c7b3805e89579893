-- ===== src/Keyboard/Typing.antt =====
-- Which character a key types.
use project_k.Base.{
  ℕ, ◌<◌, ◌≡◌, ◌≢◌, refl, sym, arith, ◌==◌, ==_iff, ◌&&◌, Bool, true, false, not, if◌then◌else◌,
  inl, inr, Bool-cases, ◌∷◌, get_or, has_bit,
}
use project_k.Base.Int.{pos}
use project_k.Base.Tables.{every, every-holds}
use project_k.Keyboard.{
  Keyboard, scan_code_chars, alternate_chars, isalpha, toupper, character, pressed, on_scancode,
}

-- What a keyboard types: a letter is a capital if just one of caps lock and shift is on, and any
-- other key has its second character with shift.
unfoldable pub typed : (caps shift : Bool) → ℕ → ℕ
typed caps shift c =
    if isalpha c
    then (if (if caps then not shift else shift) then toupper c else c)
    else (if shift then alternate_chars c else c)

agrees : (caps shift : Bool) → ℕ → Bool
agrees caps shift scancode =
    let c = get_or scan_code_chars scancode 0 in
    (if caps
      then (if shift then alternate_chars c else toupper c)
      else if shift
      then (if isalpha c then toupper c else alternate_chars c)
      else c)
    == typed caps shift c

agrees_everywhere : (caps shift : Bool) → every 128 (agrees caps shift) ≡ true
unfolding every agrees typed scan_code_chars alternate_chars isalpha toupper
agrees_everywhere true true = refl
agrees_everywhere true false = refl
agrees_everywhere false true = refl
agrees_everywhere false false = refl

agreed :
    (caps shift : Bool) (scancode : ℕ)
    → scancode < 128
    → (let c = get_or scan_code_chars scancode 0 in
        if caps
        then (if shift then alternate_chars c else toupper c)
        else if shift
        then (if isalpha c then toupper c else alternate_chars c)
        else c)
      ≡ typed caps shift (get_or scan_code_chars scancode 0)
unfolding agrees
agreed caps shift scancode h =
    (==_iff _ _).0 (every-holds _ (agrees_everywhere caps shift) scancode h)

character-typed :
    (scancode : ℕ) (k : Keyboard)
    → scancode < 128
    → character scancode k ≡ record k {
      ch = typed k.caps_lock k.shift_pressed (get_or scan_code_chars scancode 0);
      shift_pressed = k.caps_lock && k.shift_pressed;
    }
unfolding character
character-typed scancode k h =
    let c = agreed k.caps_lock k.shift_pressed scancode h in
    elim (Bool-cases k.caps_lock) [ inl on ↦ rw (sym c, on) | inr off ↦ rw (sym c, off) ]

-- A key below 128 that is not caps lock, enter, tab or the left shift types the character that
-- belongs to it under caps lock and shift, and prints it; caps lock stays, and shift is off after
-- that unless caps lock is on: it then stays as it was.
pub on_scancode-typed :
    (scancode : ℕ) (k : Keyboard)
    → scancode < 128
    → scancode ≢ 58
    → scancode ≢ 28
    → scancode ≢ 15
    → scancode ≢ 42
    → let c = typed k.caps_lock k.shift_pressed (get_or scan_code_chars scancode 0) in
      on_scancode (pos scancode) k
      ≡ record k { ch = c; printed = c ∷ k.printed; shift_pressed = k.caps_lock && k.shift_pressed }
unfolding on_scancode pressed character
on_scancode-typed scancode k h n1 n2 n3 n4 =
    let e1 : (scancode == 58) ≡ false = ground arith in
    let e2 : (scancode == 28) ≡ false = ground arith in
    let e3 : (scancode == 15) ≡ false = ground arith in
    let e4 : (scancode == 42) ≡ false = ground arith in
    let down : has_bit scancode 7 ≡ false = ground arith in
    rw (e1, e2, e3, e4, down, character-typed scancode k h)
