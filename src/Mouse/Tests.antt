-- ===== src/Mouse/Tests.antt =====
-- A mouse that sends 9 for every byte, to a controller that is always ready.
use project_k.Base.{◌≡◌, refl, arith, true, some, [], ◌∷◌}
use project_k.Bus.{Hardware, read, wrote}
use project_k.Pic.{send_pic_eoi}
use project_k.Console.{Console}
use project_k.Mouse.{
  Mouse, mouse_wait, wait_loop, mouse_read, mouse_get_status, move, mouse_handler,
}
use project_k.Mouse.Setup.{enable_line}
use project_k.Mouse.Packet.{OnScreen, mouse_handler-OnScreen}

abbrev nine : Hardware
nine bus port = 9

abbrev console : Console
console = record {
  vga_buffer = λ j. 0;
  vga_index = 0;
  cursor_pos_x = 0;
  cursor_pos_y = 0;
  fore_color = 15;
  back_color = 0;
  temp_pages = λ p j. 0;
  current_temp_page = 0;
  bus = [];
}

abbrev start : Mouse
start = record {
  mouse_x_pos = 78;
  mouse_y_pos = 2;
  mouse_status = mouse_get_status 0;
  mouse_cycle = 1;
  byte0 = 9;
  byte1 = 0;
  byte2 = 0;
  console = console;
  registered = true;
}

abbrev after : Mouse
after = record start {
  byte1 = 9;
  mouse_cycle = 2;
  console = record console { bus = send_pic_eoi 12 (read 0x60 9 ∷ read 0x64 9 ∷ []) };
}

handled : mouse_handler nine start ≡ some after
unfolding mouse_handler mouse_read mouse_wait wait_loop
handled = refl

mouse_handler-OnScreen_example : OnScreen after
mouse_handler-OnScreen_example =
    mouse_handler-OnScreen nine start after
      (record { column = omega arith; line = omega arith; cycle = omega arith }) handled

-- Nine columns to the right of 78 is beyond the screen, nine lines up from 2 too.
move_run : (move (record start { byte1 = 9; byte2 = 9 })).mouse_x_pos ≡ 79
unfolding move
move_run = refl

-- The status that is written back has its bit 1 set.
line_run :
    enable_line nine []
    ≡ wrote 0x60 11
      ∷ read 0x64 9
      ∷ wrote 0x64 0x60
      ∷ read 0x64 9
      ∷ read 0x60 9
      ∷ read 0x64 9
      ∷ wrote 0x64 0x20
      ∷ read 0x64 9
      ∷ []
unfolding enable_line mouse_wait wait_loop
line_run = refl
