-- ===== src/Mouse.antt =====
-- The mouse driver: k/mouse.c with k/include/k/mouse.h. The drawing that its comments put aside has
-- no model.
pub mod Setup
pub mod Packet
mod Tests
use project_k.Base.{
  ℕ, zero, suc, ◌+◌, ◌-◌, ◌%◌, ◌/◌, ◌^◌, ltb, ◌==◌, Bool, true, false, not, if◌then◌else◌, Option,
  none, some, List, [], ◌∷◌, u8, u16, bit_or, has_bit,
}
use project_k.Bus.{Bus, Hardware, outb, inb}
use project_k.Pic.{send_pic_eoi}
use project_k.Console.{Console, clear_console, console_gotoxy, console_putchar}
use project_k.Console.Format.{Argument, int, console_printf}

pub record MouseStatus : Type 0 where
  pub left_click : Bool
  pub right_click : Bool
  pub middle_click : Bool
  pub always_1 : Bool
  pub x_sign : Bool
  pub y_sign : Bool
  pub x_overflow : Bool
  pub y_overflow : Bool

-- The positions are `int`s that are not negative whenever the handler is not running. The bus is
-- the console's. `registered` says whether the handler serves line 12.
pub record Mouse : Type 0 where
  pub mouse_x_pos : ℕ
  pub mouse_y_pos : ℕ
  pub mouse_status : MouseStatus
  pub mouse_cycle : ℕ
  pub byte0 : ℕ
  pub byte1 : ℕ
  pub byte2 : ℕ
  pub console : Console
  pub registered : Bool

abbrev pub mouse_data_port : ℕ
mouse_data_port = 0x60

abbrev pub mouse_command_port : ℕ
mouse_command_port = 0x64

abbrev pub mouse_acknowledge : ℕ
mouse_acknowledge = 0xFA

abbrev pub on_bus : (Bus → Bus) → Mouse → Mouse
on_bus f m = record m { console = record (m.console) { bus = f m.console.bus } }

-- The test of `mouse_wait` on the status: bit 0 set for type 0, bit 1 clear for the others.
abbrev pub may_go : (kind status : ℕ) → Bool
may_go kind status = if kind == 0 then has_bit status 0 else not (has_bit status 1)

-- The loops of `mouse_wait`, with the timeout that is left.
unfoldable pub wait_loop : Hardware → (timeout kind : ℕ) → Bus → Bus
wait_loop dev zero kind bus = bus
wait_loop dev (suc timeout) kind bus =
    let (status, bus) = inb dev mouse_command_port bus in
    let rest = wait_loop dev timeout kind bus in if may_go kind status then bus else rest

unfoldable pub mouse_wait : Hardware → (kind : ℕ) → Bus → Bus
mouse_wait dev kind bus = wait_loop dev 100000 kind bus

unfoldable pub mouse_write : Hardware → ℕ → Bus → Bus
mouse_write dev value bus =
    let bus = outb mouse_command_port 0xD4 (mouse_wait dev 1 bus) in
    outb mouse_data_port value (mouse_wait dev 1 bus)

unfoldable pub mouse_read : Hardware → Bus → ℕ × Bus
mouse_read dev bus = inb dev mouse_data_port (mouse_wait dev 0 bus)

-- The test for `y_sign` is on 020, which is octal.
unfoldable pub mouse_get_status : ℕ → MouseStatus
mouse_get_status status_byte = record {
  left_click = has_bit status_byte 0;
  right_click = has_bit status_byte 1;
  middle_click = has_bit status_byte 2;
  always_1 = has_bit status_byte 3;
  x_sign = has_bit status_byte 4;
  y_sign = has_bit status_byte 4;
  x_overflow = has_bit status_byte 6;
  y_overflow = has_bit status_byte 7;
}

-- What a signed byte adds, and what it takes away.
abbrev pub forth : ℕ → ℕ
forth b = if ltb b 128 then b else 0

abbrev pub back : ℕ → ℕ
back b = if ltb b 128 then 0 else 256 - b

-- A position moved and brought back to 0 if it is negative, and to `limit - 1` if it is above `limit`.
abbrev pub moved : (limit position more less : ℕ) → ℕ
moved limit position more less =
    let position = if ltb (position + more) less then 0 else position + more - less in
    if ltb limit position then limit - 1 else position

unfoldable pub move : Mouse → Mouse
move m = record m {
  mouse_x_pos = moved 80 m.mouse_x_pos (forth m.byte1) (back m.byte1);
  mouse_y_pos = moved 25 m.mouse_y_pos (back m.byte2) (forth m.byte2);
}

abbrev demo_text : List ℕ
demo_text =
    b'M' ∷ b'o' ∷ b'u' ∷ b's' ∷ b'e' ∷ b' ' ∷ b'D' ∷ b'e' ∷ b'm' ∷ b'o' ∷ b' ' ∷ b'X' ∷ b':' ∷ b' '
    ∷ b'%' ∷ b'd' ∷ b',' ∷ b' ' ∷ b'Y' ∷ b':' ∷ b' ' ∷ b'%' ∷ b'd' ∷ 10 ∷ []

abbrev left_text : List ℕ
left_text =
    b'L' ∷ b'e' ∷ b'f' ∷ b't' ∷ b' ' ∷ b'b' ∷ b'u' ∷ b't' ∷ b't' ∷ b'o' ∷ b'n' ∷ b' ' ∷ b'c' ∷ b'l'
    ∷ b'i' ∷ b'c' ∷ b'k' ∷ b'e' ∷ b'd' ∷ 10 ∷ []

abbrev right_text : List ℕ
right_text =
    b'R' ∷ b'i' ∷ b'g' ∷ b'h' ∷ b't' ∷ b' ' ∷ b'b' ∷ b'u' ∷ b't' ∷ b't' ∷ b'o' ∷ b'n' ∷ b' ' ∷ b'c'
    ∷ b'l' ∷ b'i' ∷ b'c' ∷ b'k' ∷ b'e' ∷ b'd' ∷ 10 ∷ []

abbrev middle_text : List ℕ
middle_text =
    b'M' ∷ b'i' ∷ b'd' ∷ b'd' ∷ b'l' ∷ b'e' ∷ b' ' ∷ b'b' ∷ b'u' ∷ b't' ∷ b't' ∷ b'o' ∷ b'n' ∷ b' '
    ∷ b'c' ∷ b'l' ∷ b'i' ∷ b'c' ∷ b'k' ∷ b'e' ∷ b'd' ∷ 10 ∷ []

infixl 5 ◌>>=◌
abbrev pub ◌>>=◌ : Option Console → (Console → Option Console) → Option Console
none >>= f = none
some c >>= f = f c

abbrev say_if : Bool → List ℕ → Console → Option Console
say_if b text c = if b then console_printf text [] c else some c

unfoldable pub print_mouse_info : Mouse → Console → Option Console
print_mouse_info m c =
    console_printf demo_text (int m.mouse_x_pos ∷ int m.mouse_y_pos ∷ []) (console_gotoxy 0 0 c)
    >>= say_if m.mouse_status.left_click left_text
    >>= say_if m.mouse_status.right_click right_text
    >>= say_if m.mouse_status.middle_click middle_text

abbrev pub with_console : Mouse → Option Console → Option Mouse
with_console m none = none
with_console m (some c) = some (record m { console = c })

-- The third byte of a packet is there: the position moves, and the screen shows it.
unfoldable pub show_packet : Mouse → Option Mouse
show_packet m =
    let m = move m in
    with_console (record m { mouse_cycle = 0 })
      (console_putchar b'X'
          (console_gotoxy m.mouse_x_pos m.mouse_y_pos (clear_console 15 0 m.console))
        >>= print_mouse_info m)

abbrev acknowledged : Option Mouse → Option Mouse
acknowledged none = none
acknowledged (some m) = some (on_bus (send_pic_eoi 12) m)

unfoldable pub mouse_handler : Hardware → Mouse → Option Mouse
mouse_handler dev m =
    let (b, bus) = mouse_read dev m.console.bus in
    let read = on_bus (λ _. bus) m in
    let first = record read { byte0 = b; mouse_status = mouse_get_status b; mouse_cycle = 1 } in
    let second = record read { byte1 = b; mouse_cycle = 2 } in
    acknowledged (
      if m.mouse_cycle == 0
      then some first
      else if m.mouse_cycle == 1
      then some second
      else if m.mouse_cycle == 2
      then show_packet (record read { byte2 = b })
      else some m)
