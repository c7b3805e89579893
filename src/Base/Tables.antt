-- ===== src/Base/Tables.antt =====
-- Facts about the first numbers, decided by running a test on each of them.
use project_k.Base.{
  ℕ, zero, suc, ◌<◌, ◌≡◌, Bool, true, false, ◌&&◌, arith, Bool-cases, inl, inr, ◌==◌, ==_iff, ap,
  ◌∙◌,
}

-- The test holds of every number below the bound.
unfoldable pub every : ℕ → (ℕ → Bool) → Bool
every zero test = true
every (suc bound) test = every bound test && test bound

both : (b c : Bool) → (b && c) ≡ true → (b ≡ true) × (c ≡ true)
both true c h = (ground arith, h)
both false c h = absurd (ground arith)

pub every-holds :
    (test : ℕ → Bool) {bound : ℕ} → every bound test ≡ true → (x : ℕ) → x < bound → test x ≡ true
unfolding every
every-holds test {bound = zero} table x h = absurd (omega arith)
every-holds test {bound = suc bound} table x h =
    let (lower, last) = both (every bound test) (test bound) table in
    elim (Bool-cases (x == bound)) [
      | inl here ↦ ap test ((==_iff x bound).0 here) ∙ last
      | inr below ↦ every-holds test {bound = bound} lower x (ground arith)
    ]
