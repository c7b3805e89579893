-- ===== src/Pong/Bounds.antt =====
-- The bounds of the game's numbers: the bars, the ball and its speed.
use project_k.Base.{
  ℕ, ◌+◌, ◌-◌, ◌^◌, ◌≤◌, ◌≡◌, arith, Bool, true, false, Bool-cases, inl, inr, ◌⊎◌, some,
}
use project_k.Base.Signed.{add32, sub32, lt32}
use project_k.Pong.{press, limit, edges}

-- Two or three pixels in a frame, down or up.
abbrev pub Speed : (d : ℕ) → Type 0
Speed d = ((2 ≤ d) × (d ≤ 3)) ⊎ ((2 ^ 32 ≤ d + 3) × (d + 2 ≤ 2 ^ 32))

-- The ball on its way to the right or to the left: it has not passed the side that it goes to.
abbrev pub Heading : (x d : ℕ) → Type 0
Heading x d =
    ((2 ≤ d) × (d ≤ 3) × (15 ≤ x + d) × (x ≤ 303))
    ⊎ ((2 ^ 32 ≤ d + 3) × (d + 2 ≤ 2 ^ 32) × (15 ≤ x) × (x + d ≤ 2 ^ 32 + 303))

pub limit_bounds : (p : ℕ) → p ≤ 191 → (20 ≤ limit p) × (limit p ≤ 179)
unfolding limit
limit_bounds p h = (ground (arith, h), ground (arith, h))

pub press_bounds : (k p p' : ℕ) → 20 ≤ p → p ≤ 179 → press k p ≡ some p' → p' ≤ 191
unfolding press
press_bounds k p p' low high e = ground (arith, low, high, e)

pub turned_Speed : (d : ℕ) → Speed d → Speed (sub32 0 d)
turned_Speed d (inl h) = inr (omega (arith, h), omega (arith, h))
turned_Speed d (inr h) = inl (omega (arith, h), omega (arith, h))

-- The ball stays between the edges, when it moves and when it waits.
abbrev pub Between : (r : ℕ × ℕ × Bool) → Type 0
Between r = (8 ≤ r.0) × (r.0 ≤ 191) × Speed r.1

edges_cases :
    (y d : ℕ)
    → (8 ≤ y → y ≤ 191 → Speed d)
    → Speed (sub32 0 d)
    → (lt32 (add32 y 8) 200 ≡ true → lt32 (sub32 y 8) 0 ≡ false → (8 ≤ y) × (y ≤ 191))
    → Between (edges y d)
unfolding edges
edges_cases y d kept back inner = elim (Bool-cases (lt32 (add32 y 8) 200)) [
  | inr low ↦ rw low (omega arith, omega arith, back)
  | inl above ↦ elim (Bool-cases (lt32 (sub32 y 8) 0)) [
    | inl high ↦ rw (above, high) (omega arith, omega arith, back)
    | inr below ↦ let (l, h) = inner above below in rw (above, below) (l, h, kept l h)
  ]
]

pub edges_moved : (y d : ℕ) → 8 ≤ y → y ≤ 191 → Speed d → Between (edges (add32 y d) d)
edges_moved y d low high speed =
    edges_cases (add32 y d) d (λ l h. speed) (turned_Speed d speed)
      (λ a b. elim speed [
        | inl s ↦ (ground (arith, low, high, s, a, b), ground (arith, low, high, s, a, b))
        | inr s ↦ (ground (arith, low, high, s, a, b), ground (arith, low, high, s, a, b))
      ])

pub edges_waiting : (y d : ℕ) → 8 ≤ y → y ≤ 191 → Speed d → Between (edges y d)
edges_waiting y d low high speed =
    edges_cases y d (λ l h. speed) (turned_Speed d speed) (λ a b. (low, high))

-- The ball moved, before the sides are tested.
abbrev pub Moved : (x d : ℕ) → Type 0
Moved x d =
    ((2 ≤ d) × (d ≤ 3) × (15 ≤ x) × (x ≤ 303 + d))
    ⊎ ((2 ^ 32 ≤ d + 3) × (d + 2 ≤ 2 ^ 32) × (2 ^ 32 + 15 ≤ x + 2 ^ 32 + (2 ^ 32 - d)) × (x ≤ 303))

pub Heading-moved : (x d : ℕ) → Heading x d → Moved (add32 x d) d
Heading-moved x d (inl h) = inl (h.0, h.1, ground (arith, h), ground (arith, h))
Heading-moved x d (inr h) = inr (h.0, h.1, ground (arith, h), ground (arith, h))

-- At the right side the ball is turned; at the left it is turned or lost.
pub Moved-right :
    (x d : ℕ)
    → Moved x d
    → lt32 (add32 x 5) 309 ≡ false
    → Heading x (sub32 0 d) × (304 ≤ x) × (x ≤ 306)
Moved-right x d (inl h) e = (
  inr (ground (arith, h), ground (arith, h), ground (arith, h), ground (arith, h)),
  ground (arith, h, e),
  omega (arith, h),
)
Moved-right x d (inr h) e = absurd (ground (arith, h, e))

pub Moved-inside :
    (x d : ℕ) → Moved x d → lt32 (add32 x 5) 309 ≡ true → lt32 (sub32 x 5) 10 ≡ false → Heading x d
Moved-inside x d (inl h) e f = inl (h.0, h.1, omega (arith, h), ground (arith, h, e))
Moved-inside x d (inr h) e f = inr (h.0, h.1, ground (arith, h, f), ground (arith, h, e))

pub Moved-left :
    (x d : ℕ)
    → Moved x d
    → lt32 (add32 x 5) 309 ≡ true
    → lt32 (sub32 x 5) 10 ≡ true
    → Heading x (sub32 0 d) × (x ≤ 14)
Moved-left x d (inl h) e f = absurd (ground (arith, h, f))
Moved-left x d (inr h) e f = (
  inl (ground (arith, h), ground (arith, h), ground (arith, h), ground (arith, h)),
  ground (arith, h, f),
)
