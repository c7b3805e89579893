-- ===== src/Pong.antt =====
-- The game roms/chichepong/pong.c: its frames, from one call of draw_begin to the next. The numbers of
-- the game are signed, of 32 bits.
pub mod Bounds
pub mod Play
mod Tests
use project_k.Base.{
  ℕ, zero, suc, ◌+◌, ◌-◌, ◌^◌, ◌==◌, ◌&&◌, not, Bool, true, false, if◌then◌else◌, List, [], ◌∷◌,
  Option, none, some,
}
use project_k.Base.Options.{◌>>=◌}
use project_k.Base.Signed.{add32, sub32, lt32}
use project_k.Graphic.{Pixels, Image, draw_begin, draw_line, draw_fillrect, draw_image}
use project_k.Graphic.Text.{draw_text}

-- The calls into the kernel that the game makes: `playsound`, and the `swap_frontbuffer` of `draw_end`.
pub data Syscall : Type 0 where
  play_sound : (repeat : ℕ) → Syscall
  swap_frontbuffer : Pixels → Syscall

-- The variables of `game_loop`, the buffer that is drawn to, and the calls so far, the newest first.
pub record Pong : Type 0 where
  pub player1 : ℕ
  pub x : ℕ
  pub y : ℕ
  pub dx : ℕ
  pub dy : ℕ
  pub standby : ℕ
  pub offbuffer : Pixels
  pub calls : List Syscall

abbrev pub game_start : Pixels → Pong
game_start buf = record {
  player1 = 100;
  x = 160;
  y = 100;
  dx = 2;
  dy = 2;
  standby = 80;
  offbuffer = buf;
  calls = [];
}

unfoldable pub borders : Pixels → Pixels
borders buf =
    let buf = draw_line 0 0 319 0 64 buf in
    let buf = draw_line 0 199 319 199 64 buf in
    let buf = draw_line 0 1 319 1 192 buf in draw_line 0 198 319 198 192 buf

-- The action of the player; `none` is the key that leaves the game.
unfoldable pub press : (k player1 : ℕ) → Option ℕ
press k player1 =
    if not (lt32 0 k)
    then some player1
    else if k == 80
    then some (add32 player1 5)
    else if k == 72
    then some (sub32 player1 5)
    else if k == 1
    then none
    else some player1

-- The key is asked for once the ball moves.
unfoldable pub player_action : (k : ℕ) → Pong → Option ℕ
player_action k g = if g.standby == 0 then press k g.player1 else some g.player1

-- The limits of a bar.
unfoldable pub limit : (player : ℕ) → ℕ
limit player =
    if not (lt32 (add32 player 20) 200)
    then 179
    else if lt32 (sub32 player 20) 0
    then 20
    else player

-- What the edges at the top and the bottom make of `y` and `dy`, and whether there was one.
unfoldable pub edges : (y dy : ℕ) → ℕ × ℕ × Bool
edges y dy =
    if not (lt32 (add32 y 8) 200)
    then (191, sub32 0 dy, true)
    else if lt32 (sub32 y 8) 0
    then (8, sub32 0 dy, true)
    else (y, dy, false)

abbrev pub sounded : Bool → List Syscall → List Syscall
sounded b calls = if b then play_sound 1 ∷ calls else calls

-- The movement of the ball and the edges.
unfoldable pub advance : Pong → Pong
advance g =
    let x = if g.standby == 0 then add32 g.x g.dx else g.x in
    let y = if g.standby == 0 then add32 g.y g.dy else g.y in
    let (y, dy, edge) = edges y g.dy in
    record g { x = x; y = y; dy = dy; calls = sounded edge g.calls }

abbrev pub ready_text : List ℕ
ready_text = b'R' ∷ b'e' ∷ b'a' ∷ b'd' ∷ b'y' ∷ b' ' ∷ b'?' ∷ []

abbrev pub loose_text : List ℕ
loose_text = b'Y' ∷ b'o' ∷ b'u' ∷ b' ' ∷ b'l' ∷ b'o' ∷ b'o' ∷ b's' ∷ b'e' ∷ b'.' ∷ b'.' ∷ b'.' ∷ []

abbrev pub red : ℕ
red = 249

unfoldable pub get_ready : Pong → Option Pong
get_ready g =
    if g.standby == 0
    then some g
    else draw_text ready_text 130 96 red 0 g.offbuffer >>= λ buf.
        some (record g { offbuffer = buf; standby = sub32 g.standby 1 })

-- The bars, and the ball while it moves. The bar of the computer is where the ball is.
unfoldable pub draw_players : Image → Pong → Pong
draw_players ball g =
    let player2 = limit g.y in
    let buf = draw_fillrect 0 (sub32 g.player1 20) 10 (add32 g.player1 20) 71 71 g.offbuffer in
    let buf = draw_fillrect 309 (sub32 player2 20) 319 (add32 player2 20) 23 23 buf in
    record g {
      offbuffer = if g.standby == 0 then draw_image ball (sub32 g.x 8) (sub32 g.y 8) buf else buf;
    }

abbrev pub draw_end : Pong → Pong
draw_end g = record g { calls = swap_frontbuffer g.offbuffer ∷ g.calls }

abbrev pub turned : Pong → Pong
turned g = record g { dx = sub32 0 g.dx; calls = play_sound 1 ∷ g.calls }

-- The test for a collision with the bar of the player, near the left side.
abbrev pub meets_bar : (player1 y : ℕ) → Bool
meets_bar player1 y = lt32 (sub32 player1 20) (add32 y 3) && lt32 (sub32 y 3) (add32 player1 20)

-- The left and the right side, and the end of the frame. The player who misses the ball starts again.
unfoldable pub sides : Pong → Option Pong
sides g =
    let g = if lt32 (add32 g.x 5) 309 then g else turned g in
    if not (lt32 (sub32 g.x 5) 10)
    then some (draw_end g)
    else if meets_bar g.player1 g.y
    then some (draw_end (turned g))
    else draw_text loose_text 112 96 red 0 g.offbuffer >>= λ buf.
        some (record (draw_end (record g { offbuffer = buf })) {
          player1 = 100;
          x = 160;
          y = 100;
          dx = 3;
          dy = 3;
          standby = 80;
        })

unfoldable pub rest_of_frame : Image → Pong → Option Pong
rest_of_frame ball g = get_ready (advance g) >>= λ g. sides (draw_players ball g)

-- One frame; `k` is what `getkey` answers, if it is asked. `false` is the end of the game, and `none` an
-- access outside of the buffer. The waits for the clock are left out.
unfoldable pub frame : Image → (k : ℕ) → Pong → Option (Bool × Pong)
frame ball k g =
    let g = record g { offbuffer = borders (draw_begin g.offbuffer) } in
    elim (player_action k g) [
      | none ↦ some (false, g)
      | some p ↦ rest_of_frame ball (record g { player1 = limit p }) >>= λ g. some (true, g)
    ]

-- The loop, for `n` frames at most.
unfoldable pub game_loop : Image → (key : ℕ → ℕ) → (n : ℕ) → Pixels → Option (Bool × Pong)
game_loop ball key zero buf = some (true, game_start buf)
game_loop ball key (suc n) buf =
    game_loop ball key n buf >>= λ (on, g). if on then frame ball (key n) g else some (false, g)
