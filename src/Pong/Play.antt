-- ===== src/Pong/Play.antt =====
-- The frames of the game: no access outside of the buffer, and the bars and the ball on the screen.
use project_k.Base.{
  ℕ, zero, suc, ◌≤◌, ◌≡◌, ◌≢◌, refl, arith, ◌==◌, Bool, true, false, Bool-cases, inl, inr, ◌⊎◌,
  some, Option-cases,
}
use project_k.Base.Signed.{add32, sub32, lt32}
use project_k.Graphic.{Pixels, Image, draw_begin}
use project_k.Graphic.Text.{draw_text}
use project_k.Graphic.Letters.{draw_text-shown}
use project_k.Pong.{
  Pong, game_start, borders, limit, player_action, advance, ready_text, loose_text, red, get_ready,
  draw_players, draw_end, turned, meets_bar, sides, rest_of_frame, frame, game_loop,
}
use project_k.Pong.Bounds.{
  Speed, Heading, Moved, limit_bounds, press_bounds, edges_moved, edges_waiting, Heading-moved,
  Moved-right, Moved-inside, Moved-left,
}

-- The ball moves, or waits in the middle for the game to start.
abbrev pub Waits : (standby x dx : ℕ) → Type 0
Waits standby x dx = (standby ≡ 0) ⊎ ((standby ≤ 80) × (x ≡ 160) × (2 ≤ dx) × (dx ≤ 3))

abbrev pub InPlay : (Ball : ℕ → ℕ → Type 0) → Pong → Type 0
InPlay Ball g =
    (20 ≤ g.player1)
    × (g.player1 ≤ 179)
    × (8 ≤ g.y)
    × (g.y ≤ 191)
    × Speed g.dy
    × Ball g.x g.dx
    × Waits g.standby g.x g.dx

-- The bars and the ball are on the screen, and the ball has its speed.
abbrev pub Playing : Pong → Type 0
Playing = InPlay Heading

advance-Moved : (g : Pong) → Playing g → InPlay Moved (advance g)
unfolding advance
advance-Moved g (l, h, top, bottom, speed, ball, wait) = elim (Bool-cases (g.standby == 0)) [
  | inl moving ↦
      let now : g.standby ≡ 0 = ground (arith, moving) in
      let (t, b, s) = edges_moved g.y g.dy top bottom speed in
      rw moving (l, h, t, b, s, Heading-moved g.x g.dx ball, inl now)
  | inr waiting ↦
      let (t, b, s) = edges_waiting g.y g.dy top bottom speed in
      elim wait [
        | inl now ↦ absurd (ground (arith, waiting, now))
        | inr still ↦ rw waiting (
          l,
          h,
          t,
          b,
          s,
          inl (still.2, still.3, omega (arith, still), omega (arith, still)),
          inr still,
        )
      ]
]

ready_drawn : (buf : Pixels) → (buf' : Pixels) × (draw_text ready_text 130 96 red 0 buf ≡ some buf')
ready_drawn buf =
    let (buf', e, rest) =
      draw_text-shown 130 96 red 0 (omega arith) 0 0 (omega arith) (omega arith) ready_text buf
        (
          omega arith,
          (
            omega arith,
            (omega arith, (omega arith, (omega arith, (omega arith, (omega arith, tt))))),
          ),
        )
        (omega arith) (omega arith) in
    (buf', e)

loose_drawn : (buf : Pixels) → (buf' : Pixels) × (draw_text loose_text 112 96 red 0 buf ≡ some buf')
loose_drawn buf =
    let (buf', e, rest) =
      draw_text-shown 112 96 red 0 (omega arith) 0 0 (omega arith) (omega arith) loose_text buf
        (
          omega arith,
          (
            omega arith,
            (
              omega arith,
              (
                omega arith,
                (
                  omega arith,
                  (
                    omega arith,
                    (
                      omega arith,
                      (omega arith, (omega arith, (omega arith, (omega arith, (omega arith, tt))))),
                    ),
                  ),
                ),
              ),
            ),
          ),
        )
        (omega arith) (omega arith) in
    (buf', e)

get_ready-Moved :
    (g : Pong) → InPlay Moved g → (g' : Pong) × (get_ready g ≡ some g') × InPlay Moved g'
unfolding get_ready
get_ready-Moved g (l, h, t, b, s, ball, wait) = elim (Bool-cases (g.standby == 0)) [
  | inl moving ↦ (g, rw moving refl, (l, h, t, b, s, ball, wait))
  | inr waiting ↦
      let (buf', e) = ready_drawn g.offbuffer in
      (
        record g { offbuffer = buf'; standby = sub32 g.standby 1 },
        rw (waiting, e) refl,
        (
          l,
          h,
          t,
          b,
          s,
          ball,
          elim wait [
            | inl now ↦ absurd (ground (arith, waiting, now))
            | inr still ↦ inr (ground (arith, waiting, still), still.1, still.2, still.3)
          ],
        ),
      )
]

moves : (standby x dx : ℕ) → Waits standby x dx → x ≢ 160 → standby ≡ 0
moves standby x dx (inl now) away = now
moves standby x dx (inr still) away = absurd (away still.1)

sides-Playing : (g : Pong) → InPlay Moved g → (g' : Pong) × (sides g ≡ some g') × Playing g'
unfolding sides
sides-Playing g (l, h, t, b, s, ball, wait) = elim (Bool-cases (lt32 (add32 g.x 5) 309)) [
  | inr right ↦
      let (heading, low, high) = Moved-right g.x g.dx ball right in
      let far : lt32 (sub32 g.x 5) 10 ≡ false = ground (arith, low, high) in
      let now : g.standby ≡ 0 = moves g.standby g.x g.dx wait (λ e. omega (arith, low, e)) in
      (draw_end (turned g), rw right (rw far refl), (l, h, t, b, s, heading, inl now))
  | inl left ↦ elim (Bool-cases (lt32 (sub32 g.x 5) 10)) [
    | inr inside ↦ (
      draw_end g,
      rw left (rw inside refl),
      (l, h, t, b, s, Moved-inside g.x g.dx ball left inside, wait),
    )
    | inl near ↦ elim (Bool-cases (meets_bar g.player1 g.y)) [
      | inl meets ↦
          let (heading, high) = Moved-left g.x g.dx ball left near in
          let now : g.standby ≡ 0 = moves g.standby g.x g.dx wait (λ e. omega (arith, high, e)) in
          (
            draw_end (turned g),
            rw left (rw near (rw meets refl)),
            (l, h, t, b, s, heading, inl now),
          )
      | inr lost ↦
          let (buf', e) = loose_drawn g.offbuffer in
          (
            record (draw_end (record g { offbuffer = buf' })) {
              player1 = 100;
              x = 160;
              y = 100;
              dx = 3;
              dy = 3;
              standby = 80;
            },
            rw left (rw near (rw lost (rw e refl))),
            (
              omega arith,
              omega arith,
              omega arith,
              omega arith,
              inl (omega arith, omega arith),
              inl (omega arith, omega arith, omega arith, omega arith),
              inr (omega arith, refl, omega arith, omega arith),
            ),
          )
    ]
  ]
]

rest_of_frame-Playing :
    (ball : Image) (g : Pong)
    → Playing g
    → (g' : Pong) × (rest_of_frame ball g ≡ some g') × Playing g'
unfolding rest_of_frame draw_players
rest_of_frame-Playing ball g p =
    let (g1, e, q) = get_ready-Moved (advance g) (advance-Moved g p) in
    let (g2, e', r) = sides-Playing (draw_players ball g1) q in (g2, rw e e', r)

player_action_bounds : (k p : ℕ) (g : Pong) → Playing g → player_action k g ≡ some p → p ≤ 191
unfolding player_action
player_action_bounds k p g (l, h, t, b, s, ball, wait) = elim (Bool-cases (g.standby == 0)) [
  | inl moving ↦ rw moving (λ e. press_bounds k g.player1 p l h e)
  | inr waiting ↦ rw waiting (λ e. ground (arith, h, e))
]

frame-Playing :
    (ball : Image) (k : ℕ) (g : Pong)
    → Playing g
    → (on : Bool) × (g' : Pong) × (frame ball k g ≡ some (on, g')) × Playing g'
unfolding frame
frame-Playing ball k g (l0, h0, t, b, s, way, wait) =
    let p : Playing g = (l0, h0, t, b, s, way, wait) in
    let begun : Pong = record g { offbuffer = borders (draw_begin g.offbuffer) } in
    elim (Option-cases (player_action k begun)) [
      | inl leave ↦ (false, begun, rw (leave, frame) refl, p)
      | inr act ↦
          let (l, h) = limit_bounds act.0 (player_action_bounds k act.0 begun p act.1) in
          let (g', e, q) =
            rest_of_frame-Playing ball (record begun { player1 = limit act.0 })
              (l, h, t, b, s, way, wait) in
          (true, g', rw (act.1, frame) (rw e refl), q)
    ]

-- Whatever the keys are, the game runs for any number of frames without an access outside of the
-- buffer: at their end the bar of the player is from 20 to 179, so that it is whole on the screen; the
-- ball is between the edges and has not passed a side by more than a step; its speed is two or three
-- pixels in each direction; and before the game starts it waits in the middle.
pub game_loop-Playing :
    (ball : Image) (key : ℕ → ℕ) (n : ℕ) (buf : Pixels)
    → (on : Bool) × (g : Pong) × (game_loop ball key n buf ≡ some (on, g)) × Playing g
unfolding game_loop
game_loop-Playing ball key zero buf = (
  true,
  game_start buf,
  refl,
  (
    omega arith,
    omega arith,
    omega arith,
    omega arith,
    inl (omega arith, omega arith),
    inl (omega arith, omega arith, omega arith, omega arith),
    inr (omega arith, refl, omega arith, omega arith),
  ),
)
game_loop-Playing ball key (suc n) buf =
    let (on, g, e, p) = game_loop-Playing ball key n buf in
    elim (Bool-cases on) [
      | inl on_yet ↦
          let (on', g', e', q) = frame-Playing ball (key n) g p in (on', g', rw (e, on_yet) e', q)
      | inr over ↦ (false, g, rw (e, over) refl, p)
    ]
