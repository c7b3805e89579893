-- ===== src/Graphic/Slopes.antt =====
-- The sloping lines: Bresenham's loop, and the line that it rounds.
use project_k.Base.{
  ℕ, zero, suc, ◌+◌, ◌-◌, ◌*◌, ◌/◌, ◌^◌, ◌<◌, ◌≤◌, ◌≡◌, ◌≢◌, refl, sym, ap, ◌∙◌, arith, ltb, leb,
  ◌==◌, Bool, true, false, Bool-cases, inl, inr, if◌then◌else◌,
}
use native.Mathlib.Nat.{div-eq_of_lt-le}
use project_k.Base.Signed.{add32, sub32, lt32}
use project_k.Graphic.{Pixels, draw_pixel, distance, slope_loop, slope, ordered, draw_line}

-- `k * deltay / deltax`, rounded to the nearest number, and from a half on downwards.
abbrev pub nearest : (deltax deltay k : ℕ) → ℕ
nearest deltax deltay k = (k * deltay + (deltax - 1 - deltax / 2)) / deltax

abbrev moved : (down : Bool) → (y q : ℕ) → ℕ
moved down y q = if down then add32 y q else sub32 y q

-- The pixels of `left` columns from column `k` of a line on, each in the row nearest to the line; a
-- steep line has its columns and rows exchanged.
unfoldable pub plotted :
    (left k : ℕ) → (steep down : Bool) → (x1 y1 deltax deltay color : ℕ) → Pixels → Pixels
plotted zero k steep down x1 y1 deltax deltay color buf = buf
plotted (suc left) k steep down x1 y1 deltax deltay color buf =
    let x = x1 + k in
    let y = moved down y1 (nearest deltax deltay k) in
    plotted left (k + 1) steep down x1 y1 deltax deltay color
      (if steep then draw_pixel y x color buf else draw_pixel x y color buf)

suc_mul : (k n : ℕ) → (k + 1) * n ≡ k * n + n
suc_mul k n = grind arith

nearest-eq :
    (deltax deltay k q m : ℕ)
    → m < deltax
    → k * deltay + m ≡ q * deltax + deltax / 2
    → nearest deltax deltay k ≡ q
nearest-eq deltax deltay k q m h e =
    div-eq_of_lt-le {k = q} deltax (omega (arith, e)) (omega (arith, e, suc_mul q deltax))

moved_on :
    (down : Bool) (y q : ℕ)
    → q < 2 ^ 31
    → (if down then add32 (moved down y q) 1 else sub32 (moved down y q) 1) ≡ moved down y (q + 1)
moved_on true y q h = omega arith
moved_on false y q h = omega arith

-- The `error` is what is missing to the next row, negated.
slope_loop-plotted :
    (left k q m : ℕ) (steep down : Bool) (x1 y1 deltax deltay color : ℕ) (buf : Pixels)
    → deltay ≤ deltax
    → deltax < 2 ^ 16
    → m < deltax
    → q ≤ k
    → k + left ≤ deltax
    → k * deltay + m ≡ q * deltax + deltax / 2
    → slope_loop left (x1 + k) steep down deltax deltay color (moved down y1 q) (sub32 0 m) buf
      ≡ plotted left k steep down x1 y1 deltax deltay color buf
unfolding slope_loop plotted
slope_loop-plotted zero k q m steep down x1 y1 deltax deltay color buf flat small h le room e = refl
slope_loop-plotted (suc left) k q m steep down x1 y1 deltax deltay color buf flat small h le room
      e =
    let at = nearest-eq deltax deltay k q m h e in
    let next : x1 + k + 1 ≡ x1 + (k + 1) = omega arith in
    elim (Bool-cases (ltb m deltay)) [
      | inl more ↦
          let over : lt32 0 (add32 (sub32 0 m) deltay) ≡ true = ground arith in
          let left_over : sub32 (add32 (sub32 0 m) deltay) deltax ≡ sub32 0 (m + deltax - deltay) =
            ground arith in
          rw (over, left_over, moved_on down y1 q (omega arith), next, at)
            (slope_loop-plotted left (k + 1) (q + 1) (m + deltax - deltay) steep down x1 y1 deltax
              deltay color _ flat small (ground arith) (omega arith) (omega arith)
              (ground (arith, suc_mul k deltay, suc_mul q deltax)))
      | inr less ↦
          let over : lt32 0 (add32 (sub32 0 m) deltay) ≡ false = ground arith in
          let left_over : add32 (sub32 0 m) deltay ≡ sub32 0 (m - deltay) = ground arith in
          rw (over, left_over, next, at)
            (slope_loop-plotted left (k + 1) q (m - deltay) steep down x1 y1 deltax deltay color _
              flat small (omega arith) (omega arith) (omega arith)
              (ground (arith, suc_mul k deltay)))
    ]

-- All columns of a line from left to right, but the last.
abbrev pub whole : (steep : Bool) → (x1 y1 x2 y2 color : ℕ) → Pixels → Pixels
whole steep x1 y1 x2 y2 color buf =
    plotted (x2 - x1) 0 steep (ltb y1 y2) x1 y1 (x2 - x1) (distance y1 y2) color buf

slope-whole :
    (steep : Bool) (x1 y1 x2 y2 color : ℕ) (buf : Pixels)
    → x1 < x2
    → x2 < 320
    → y1 < 320
    → distance y1 y2 ≤ x2 - x1
    → slope steep x1 y1 x2 y2 color buf ≡ whole steep x1 y1 x2 y2 color buf
unfolding slope
slope-whole steep x1 y1 x2 y2 color buf h small low flat =
    let start : x1 + 0 ≡ x1 = omega arith in
    let row : moved (ltb y1 y2) y1 0 ≡ y1 = ground arith in
    ap
      (λ (t : ℕ).
        slope_loop (x2 - x1) t steep (ltb y1 y2) (x2 - x1) (distance y1 y2) color y1
          (sub32 0 ((x2 - x1) / 2)) buf)
      (sym start)
    ∙ ap
        (λ (t : ℕ).
          slope_loop (x2 - x1) (x1 + 0) steep (ltb y1 y2) (x2 - x1) (distance y1 y2) color t
            (sub32 0 ((x2 - x1) / 2)) buf)
        (sym row)
    ∙ slope_loop-plotted (x2 - x1) 0 0 ((x2 - x1) / 2) steep (ltb y1 y2) x1 y1 (x2 - x1)
        (distance y1 y2) color buf flat (omega arith) (omega arith) (omega arith) (omega arith)
        (omega arith)

-- A line from the end with the smaller first coordinate to the other.
abbrev pub straight : (steep : Bool) → (x1 y1 x2 y2 color : ℕ) → Pixels → Pixels
straight steep x1 y1 x2 y2 color buf =
    if ltb x2 x1 then whole steep x2 y2 x1 y1 color buf else whole steep x1 y1 x2 y2 color buf

ordered-straight :
    (steep : Bool) (x1 y1 x2 y2 color : ℕ) (buf : Pixels)
    → x1 < 320
    → x2 < 320
    → y1 < 320
    → y2 < 320
    → x1 ≢ x2
    → distance y1 y2 ≤ distance x1 x2
    → ordered steep x1 y1 x2 y2 color buf ≡ straight steep x1 y1 x2 y2 color buf
unfolding ordered
ordered-straight steep x1 y1 x2 y2 color buf hx hx' hy hy' apart flat =
    elim (Bool-cases (ltb x2 x1)) [
      | inl back ↦ rw back (
          slope-whole steep x2 y2 x1 y1 color buf (ground (arith, back)) hx hy'
            (ground (arith, flat, back)))
      | inr forth ↦ rw forth (
          slope-whole steep x1 y1 x2 y2 color buf (ground (arith, forth)) hx' hy
            (ground (arith, flat, forth)))
    ]

-- A line that is neither vertical nor horizontal, between two pixels of the screen, is the straight
-- line: along the direction in which it is longer, from the smaller to the greater coordinate, each step
-- but the last gets one pixel, at the place across that is nearest to the line, and nothing else is
-- drawn. So the end with the greater coordinate is never colored.
pub draw_line-straight :
    (x1 y1 x2 y2 color : ℕ) (buf : Pixels)
    → x1 < 320
    → y1 < 200
    → x2 < 320
    → y2 < 200
    → x1 ≢ x2
    → y1 ≢ y2
    → draw_line x1 y1 x2 y2 color buf ≡ (
        if ltb (distance x1 x2) (distance y1 y2)
        then straight true y1 x1 y2 x2 color buf
        else straight false x1 y1 x2 y2 color buf)
unfolding draw_line
draw_line-straight x1 y1 x2 y2 color buf a b c d apart apart' =
    let a' : leb 320 x1 ≡ false = ground arith in
    let b' : leb 200 y1 ≡ false = ground arith in
    let c' : leb 320 x2 ≡ false = ground arith in
    let d' : leb 200 y2 ≡ false = ground arith in
    let e : (x1 == x2) ≡ false = ground arith in
    let f : (y1 == y2) ≡ false = ground arith in
    elim (Bool-cases (ltb (distance x1 x2) (distance y1 y2))) [
      | inl steep ↦
          rw (a', b', c', d', e, f, steep)
            (ordered-straight true y1 x1 y2 x2 color buf (omega arith) (omega arith) a c apart'
              (ground (arith, steep)))
      | inr flat ↦
          rw (a', b', c', d', e, f, flat)
            (ordered-straight false x1 y1 x2 y2 color buf a c (omega arith) (omega arith) apart
              (ground (arith, flat)))
    ]
