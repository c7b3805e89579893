-- ===== src/Mouse/Setup.antt =====
-- The start of the mouse: `set_mouse_rate` and `init_mouse` of k/mouse.c.
use project_k.Base.{
  ℕ, ◌==◌, Bool, true, not, if◌then◌else◌, Option, none, some, List, [], ◌∷◌, bit_or,
}
use project_k.Bus.{Bus, Hardware, outb, inb}
use project_k.Console.{Console}
use project_k.Console.Format.{int, console_printf}
use project_k.Mouse.{
  Mouse, mouse_data_port, mouse_command_port, mouse_acknowledge, mouse_wait, mouse_write,
  mouse_read, with_console, ◌>>=◌,
}

abbrev rate_error : List ℕ
rate_error =
    b'E' ∷ b'r' ∷ b'r' ∷ b'o' ∷ b'r' ∷ b':' ∷ b' ' ∷ b'F' ∷ b'a' ∷ b'i' ∷ b'l' ∷ b'e' ∷ b'd' ∷ b' '
    ∷ b't' ∷ b'o' ∷ b' ' ∷ b's' ∷ b'e' ∷ b'n' ∷ b'd' ∷ b' ' ∷ b'm' ∷ b'o' ∷ b'u' ∷ b's' ∷ b'e'
    ∷ b' ' ∷ b's' ∷ b'a' ∷ b'm' ∷ b'p' ∷ b'l' ∷ b'e' ∷ b' ' ∷ b'r' ∷ b'a' ∷ b't' ∷ b'e' ∷ b' '
    ∷ b'c' ∷ b'o' ∷ b'm' ∷ b'm' ∷ b'a' ∷ b'n' ∷ b'd' ∷ 10 ∷ []

abbrev id_text : List ℕ
id_text =
    b'M' ∷ b'o' ∷ b'u' ∷ b's' ∷ b'e' ∷ b' ' ∷ b'i' ∷ b'd' ∷ b' ' ∷ b'=' ∷ b' ' ∷ b'0' ∷ b'x' ∷ b'%'
    ∷ b'x' ∷ 10 ∷ []

abbrev defaults_error : List ℕ
defaults_error =
    b'E' ∷ b'r' ∷ b'r' ∷ b'o' ∷ b'r' ∷ b':' ∷ b' ' ∷ b'F' ∷ b'a' ∷ b'i' ∷ b'l' ∷ b'e' ∷ b'd' ∷ b' '
    ∷ b't' ∷ b'o' ∷ b' ' ∷ b's' ∷ b'e' ∷ b't' ∷ b' ' ∷ b'd' ∷ b'e' ∷ b'f' ∷ b'a' ∷ b'u' ∷ b'l'
    ∷ b't' ∷ b' ' ∷ b's' ∷ b'e' ∷ b't' ∷ b't' ∷ b'i' ∷ b'n' ∷ b'g' ∷ b's' ∷ b' ' ∷ b'f' ∷ b'o'
    ∷ b'r' ∷ b' ' ∷ b'm' ∷ b'o' ∷ b'u' ∷ b's' ∷ b'e' ∷ 10 ∷ []

abbrev streaming_error : List ℕ
streaming_error =
    b'E' ∷ b'r' ∷ b'r' ∷ b'o' ∷ b'r' ∷ b':' ∷ b' ' ∷ b'F' ∷ b'a' ∷ b'i' ∷ b'l' ∷ b'e' ∷ b'd' ∷ b' '
    ∷ b't' ∷ b'o' ∷ b' ' ∷ b'e' ∷ b'n' ∷ b'a' ∷ b'b' ∷ b'l' ∷ b'e' ∷ b' ' ∷ b'p' ∷ b'a' ∷ b'c'
    ∷ b'k' ∷ b'e' ∷ b't' ∷ b' ' ∷ b's' ∷ b't' ∷ b'r' ∷ b'e' ∷ b'a' ∷ b'm' ∷ b'i' ∷ b'n' ∷ b'g'
    ∷ b' ' ∷ b'f' ∷ b'o' ∷ b'r' ∷ b' ' ∷ b'm' ∷ b'o' ∷ b'u' ∷ b's' ∷ b'e' ∷ 10 ∷ []

abbrev on_console : Bus → Console → Console
on_console bus c = record c { bus = bus }

-- The second test of `set_mouse_rate` is on the answer that the first has accepted.
unfoldable pub set_mouse_rate : Hardware → ℕ → Console → Option Console
set_mouse_rate dev rate c =
    let (status, bus) = mouse_read dev (outb mouse_data_port 0xF3 c.bus) in
    if status == mouse_acknowledge
    then some (on_console (outb mouse_data_port rate bus) c)
    else console_printf rate_error [] (on_console bus c)

-- Step by step, with the configuration byte of the controller in the middle.
unfoldable pub identify : Hardware → Console → Option Console
identify dev c =
    let bus = outb mouse_command_port 0xA8 (mouse_wait dev 1 c.bus) in
    let (status, bus) = mouse_read dev (outb mouse_data_port 0xF2 bus) in
    console_printf id_text (int status ∷ []) (on_console bus c)

unfoldable pub enable_line : Hardware → Bus → Bus
enable_line dev bus =
    let bus = mouse_wait dev 0 (outb mouse_command_port 0x20 (mouse_wait dev 1 bus)) in
    let (answer, bus) = inb dev mouse_data_port bus in
    let bus = outb mouse_command_port 0x60 (mouse_wait dev 1 bus) in
    outb mouse_data_port (bit_or answer 2) (mouse_wait dev 1 bus)

-- A command that has to be acknowledged: whether it was.
unfoldable pub commanded : Hardware → ℕ → Bus → Bool × Bus
commanded dev value bus =
    let (status, bus) = mouse_read dev (mouse_write dev value bus) in
    (status == mouse_acknowledge, bus)

abbrev placed : Mouse → Mouse
placed m = record m { mouse_x_pos = 5; mouse_y_pos = 2 }

-- The two commands at the end; the handler is registered only if both were acknowledged.
unfoldable pub start_stream : Hardware → Mouse → Console → Option Mouse
start_stream dev m c =
    let (defaults, bus) = commanded dev 0xF6 (enable_line dev c.bus) in
    let (streaming, bus') = commanded dev 0xF4 bus in
    if not defaults
    then with_console m (console_printf defaults_error [] (on_console bus c))
    else if not streaming
    then with_console m (console_printf streaming_error [] (on_console bus' c))
    else some (record m { console = on_console bus' c; registered = true })

abbrev bind : Option Console → (Console → Option Mouse) → Option Mouse
bind none f = none
bind (some c) f = f c

unfoldable pub init_mouse : Hardware → Mouse → Option Mouse
init_mouse dev m =
    bind (identify dev m.console >>= set_mouse_rate dev 10) (start_stream dev (placed m))
