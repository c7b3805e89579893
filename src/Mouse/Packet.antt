-- ===== src/Mouse/Packet.antt =====
-- The position of the mouse, packet by packet.
use project_k.Base.{
  ℕ, ◌<◌, ◌≤◌, ◌≡◌, refl, arith, ◌==◌, Bool, true, false, if◌then◌else◌, Option, none, some,
}
use mathlib.Core.Path.{subst}
use project_k.Bus.{Hardware}
use project_k.Pic.{send_pic_eoi}
use project_k.Console.{Console}
use project_k.Mouse.{
  Mouse, on_bus, forth, back, moved, move, show_packet, with_console, acknowledged, mouse_handler,
}

-- The position is at most the limits of the screen, and the next byte is one of the three of a packet.
pub record OnScreen (m : Mouse) : Type 0 where
  pub column : m.mouse_x_pos ≤ 80
  pub line : m.mouse_y_pos ≤ 25
  pub cycle : m.mouse_cycle < 3

moved-le : (limit position more less : ℕ) → 1 ≤ limit → moved limit position more less ≤ limit
moved-le limit position more less h = ground arith

with_console-OnScreen :
    (m m' : Mouse) (o : Option Console) → OnScreen m → with_console m o ≡ some m' → OnScreen m'
with_console-OnScreen m m' none h e = absurd (ground arith)
with_console-OnScreen m m' (some c) h e =
    let same : record m { console = c } ≡ m' = ground arith in
    subst OnScreen same (record { column = h.column; line = h.line; cycle = h.cycle })

show_packet-OnScreen : (m m' : Mouse) → show_packet m ≡ some m' → OnScreen m'
unfolding show_packet move
show_packet-OnScreen m m' e =
    with_console-OnScreen (record (move m) { mouse_cycle = 0 }) m' _
      (record {
        column = moved-le 80 m.mouse_x_pos (forth m.byte1) (back m.byte1) (omega arith);
        line = moved-le 25 m.mouse_y_pos (back m.byte2) (forth m.byte2) (omega arith);
        cycle = omega arith;
      })
      e

acknowledged-OnScreen :
    (o : Option Mouse) (m' : Mouse)
    → ((m : Mouse) → o ≡ some m → OnScreen m)
    → acknowledged o ≡ some m'
    → OnScreen m'
acknowledged-OnScreen none m' h e = absurd (ground arith)
acknowledged-OnScreen (some m) m' h e =
    let same : on_bus (send_pic_eoi 12) m ≡ m' = ground arith in
    let before = h m refl in
    subst OnScreen same
      (record { column = before.column; line = before.line; cycle = before.cycle })

same-OnScreen : (m m' : Mouse) → OnScreen m → some m ≡ some m' → OnScreen m'
same-OnScreen m m' h e = let same : m ≡ m' = ground arith in subst OnScreen same h

-- The branches of the handler.
branches-OnScreen :
    (b0 b1 b2 : Bool) (first second third m m' : Mouse)
    → OnScreen first
    → OnScreen second
    → OnScreen m
    → (if b0
        then some first
        else if b1
        then some second
        else if b2
        then show_packet third
        else some m)
      ≡ some m'
    → OnScreen m'
branches-OnScreen true b1 b2 first second third m m' h1 h2 h3 e = same-OnScreen first m' h1 e
branches-OnScreen false true b2 first second third m m' h1 h2 h3 e = same-OnScreen second m' h2 e
branches-OnScreen false false true first second third m m' h1 h2 h3 e =
    show_packet-OnScreen third m' e
branches-OnScreen false false false first second third m m' h1 h2 h3 e = same-OnScreen m m' h3 e

-- Whatever the mouse sends, the handler that ends leaves a position of at most 80 by 25 and a packet
-- of which at most two bytes are there, if that was so before.
pub mouse_handler-OnScreen :
    (dev : Hardware) (m m' : Mouse) → OnScreen m → mouse_handler dev m ≡ some m' → OnScreen m'
unfolding mouse_handler
mouse_handler-OnScreen dev m m' h e =
    acknowledged-OnScreen _ m'
      (λ m0.
        branches-OnScreen (m.mouse_cycle == 0) (m.mouse_cycle == 1) (m.mouse_cycle == 2) _ _ _ m m0
          (record { column = h.column; line = h.line; cycle = omega arith })
          (record { column = h.column; line = h.line; cycle = omega arith }) h)
      e
