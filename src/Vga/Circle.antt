-- ===== src/Vga/Circle.antt =====
-- The circle of k/libvga.c. An `int` is its 32 bits.
use project_k.Base.{
  ℕ, zero, suc, ◌+◌, ◌*◌, ◌<◌, ◌≤◌, ◌≡◌, arith, ◌==◌, true, Bool-cases, ◌⊎◌, inl, inr,
  if◌then◌else◌, Option, none, some, u32,
}
use project_k.Base.Signed.{add32, sub32, lt32}
use project_k.Vga.Draw.{Pixels, put_pixel}

unfoldable pub draw_bresenham_circle : (xc yc x y color : ℕ) → Pixels → Pixels
draw_bresenham_circle xc yc x y color mem =
    let mem = put_pixel (add32 xc x) (add32 yc y) color mem in
    let mem = put_pixel (sub32 xc x) (add32 yc y) color mem in
    let mem = put_pixel (add32 xc x) (sub32 yc y) color mem in
    let mem = put_pixel (add32 xc x) (add32 yc y) color mem in
    let mem = put_pixel (sub32 xc x) (sub32 yc y) color mem in
    let mem = put_pixel (add32 xc y) (add32 yc x) color mem in
    let mem = put_pixel (sub32 xc y) (add32 yc x) color mem in
    let mem = put_pixel (add32 xc y) (sub32 yc x) color mem in
    put_pixel (sub32 xc y) (sub32 yc x) color mem

-- The body of the loop: `x2`, `y2` and `d` after it.
unfoldable pub circle_step : (x2 y2 d : ℕ) → ℕ × ℕ × ℕ
circle_step x2 y2 d =
    let x2 = add32 x2 1 in
    if lt32 0 d
    then (x2, sub32 y2 1, add32 d (add32 (u32 (4 * sub32 x2 (sub32 y2 1))) 10))
    else (x2, y2, add32 d (add32 (u32 (4 * x2)) 6))

unfoldable pub circle_loop : (fuel xc yc x2 y2 d color : ℕ) → Pixels → Option Pixels
circle_loop zero xc yc x2 y2 d color mem = none
circle_loop (suc fuel) xc yc x2 y2 d color mem =
    let s = circle_step x2 y2 d in
    let rest =
      circle_loop fuel xc yc s.0 s.1 s.2 color (draw_bresenham_circle xc yc s.0 s.1 color mem) in
    if lt32 y2 x2 then some mem else rest

unfoldable pub draw_circle : (fuel x y radius color : ℕ) → Pixels → Option Pixels
draw_circle fuel x y radius color mem =
    circle_loop fuel x y 0 radius (sub32 3 (2 * radius)) color
      (draw_bresenham_circle x y 0 radius color mem)

-- Each round moves `x2` up by one, and `y2` down by one at most and never below -1.
circle_step-moves :
    (x2 y2 d : ℕ)
    → x2 ≤ y2
    → y2 < 65536
    → let s = circle_step x2 y2 d in (s.0 ≡ x2 + 1) × ((s.1 ≤ y2) ⊎ (lt32 s.1 s.0 ≡ true))
unfolding circle_step
circle_step-moves x2 y2 d h k = elim (Bool-cases (lt32 0 d)) [
  | inl down ↦ elim (Bool-cases (y2 == 0)) [
    | inl floor ↦ rw down (omega arith, inr (ground arith))
    | inr above ↦ rw down (omega arith, inl (ground arith))
  ]
  | inr level ↦ rw level (omega arith, inl (omega arith))
]

circle_loop_stops :
    (fuel xc yc x2 y2 d color : ℕ) (mem : Pixels)
    → lt32 y2 x2 ≡ true
    → (mem' : Pixels) × (circle_loop (suc fuel) xc yc x2 y2 d color mem ≡ some mem')
unfolding circle_loop
circle_loop_stops fuel xc yc x2 y2 d color mem e = (mem, rw e)

circle_loop_ends :
    (fuel xc yc x2 y2 d color : ℕ) (mem : Pixels)
    → y2 < 65536
    → x2 ≤ 65536
    → y2 < x2 + fuel
    → (mem' : Pixels) × (circle_loop (suc fuel) xc yc x2 y2 d color mem ≡ some mem')
unfolding circle_loop
circle_loop_ends zero xc yc x2 y2 d color mem h k room =
    circle_loop_stops zero xc yc x2 y2 d color mem (ground arith)
circle_loop_ends (suc fuel) xc yc x2 y2 d color mem h k room = elim (Bool-cases (lt32 y2 x2)) [
  | inl past ↦ circle_loop_stops (suc fuel) xc yc x2 y2 d color mem past
  | inr inside ↦
      let le : x2 ≤ y2 = ground (arith, inside) in
      let (across, moved) = circle_step-moves x2 y2 d le h in
      rw inside (elim moved [
        | inl down ↦
            circle_loop_ends fuel xc yc _ _ _ color _ (omega (arith, down)) (omega (arith, across))
              (omega (arith, down, across))
        | inr past ↦ circle_loop_stops fuel xc yc _ _ _ color _ past
      ])
]

-- The loop of a circle ends, in at most radius + 2 rounds with the one that finds the end: for each
-- center, color and radius of 16 bits.
pub draw_circle_ends :
    (fuel x y radius color : ℕ) (mem : Pixels)
    → radius < 65536
    → radius + 2 ≤ fuel
    → (mem' : Pixels) × (draw_circle fuel x y radius color mem ≡ some mem')
unfolding draw_circle
draw_circle_ends zero x y radius color mem h room = absurd (omega arith)
draw_circle_ends (suc fuel) x y radius color mem h room =
    circle_loop_ends fuel x y 0 radius _ color _ h (omega arith) (omega arith)
