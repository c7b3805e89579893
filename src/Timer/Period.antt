-- ===== src/Timer/Period.antt =====
-- How often a registered function is called.
use project_k.Base.{
  ℕ, zero, suc, ◌+◌, ◌%◌, ◌/◌, ◌^◌, ◌<◌, ◌≡◌, ◌≢◌, refl, arith, ltb, ◌==◌, ◌&&◌, if◌then◌else◌,
  Option, some, List, ap, sym, [], ◌∷◌, ◌++◌, u32,
}
use mathlib.Core.Path.{subst}
use native.Mathlib.Nat.{add-zero}
use project_k.Timer.{Timer, TimerFunctionManager, Call, ◌>>=◌, timer_handler}
use project_k.Timer.Ready.{IsReady, timeout_of, is_due, due_calls, ticked, timer_handler-due_calls}

div_step : (p t : ℕ) → 0 < p → (t + 1) / p ≡ t / p + (if (t + 1) % p == 0 then 1 else 0)
div_step p t h = grind arith

-- How many of the calls were made from slot `i`.
unfoldable pub calls_of : ℕ → List Call → ℕ
calls_of i [] = 0
calls_of i (c ∷ cs) = (if c.slot == i then 1 else 0) + calls_of i cs

calls_of-append :
    (i : ℕ) (cs ds : List Call) → calls_of i (cs ++ ds) ≡ calls_of i cs + calls_of i ds
unfolding calls_of
calls_of-append i [] ds = omega arith
calls_of-append i (c ∷ cs) ds = omega (arith, calls_of-append i cs ds)

calls_of-due_calls :
    (i n : ℕ) (t : Timer) → calls_of i (due_calls t n) ≡ (if ltb i n && is_due t i then 1 else 0)
unfolding calls_of due_calls
calls_of-due_calls i zero t = ground arith
calls_of-due_calls i (suc n) t = ground (arith, calls_of-due_calls i n t)

-- `n` interrupts of the timer, one after the other.
unfoldable pub run_ticks : ℕ → Timer → Option Timer
run_ticks zero t = some t
run_ticks (suc n) t = run_ticks n t >>= timer_handler

pub record Ran (n i : ℕ) (t t' : Timer) : Type 0 where
  pub ticks : t'.ticks ≡ t.ticks + n
  pub slots : t'.manager ≡ t.manager
  pub calls :
      calls_of i t'.calls + t.ticks / timeout_of t i
      ≡ calls_of i t.calls + (t.ticks + n) / timeout_of t i

step-Ran :
    (n i : ℕ) (t t' : Timer)
    → IsReady t'
    → i < 32
    → 0 < timeout_of t i
    → t.ticks + n + 1 < 2 ^ 32
    → Ran n i t t'
    → (u : Timer) × (timer_handler t' ≡ some u) × Ran (suc n) i t u
step-Ran n i t t' ready h p fits ran =
    let same : timeout_of t' i ≡ timeout_of t i =
      ap (λ (m : TimerFunctionManager). (m.func_args i).timeout) ran.slots in
    let now : u32 (t'.ticks + 1) ≡ t.ticks + n + 1 = omega (arith, ran.ticks) in
    let due = due_calls (ticked t') 32 in
    (
      record (ticked t') { calls = due ++ t'.calls },
      timer_handler-due_calls t' ready,
      record {
        ticks = omega (arith, now);
        slots = ran.slots;
        calls = ground (
          arith,
          ran.calls,
          now,
          same,
          calls_of-append i due t'.calls,
          calls_of-due_calls i 32 (ticked t'),
          div_step (timeout_of t i) (t.ticks + n) p,
        );
      },
    )

-- Let every slot with a timeout have a function, and let the tick counter not wrap. Then `n`
-- interrupts of the timer all end, count `n` ticks and call the function of a slot with timeout
-- `p` as often as a multiple of `p` lies among the new ticks: `(ticks + n) / p - ticks / p` times.
pub run_ticks-Ran :
    (n i : ℕ) (t : Timer)
    → IsReady t
    → i < 32
    → 0 < timeout_of t i
    → t.ticks + n < 2 ^ 32
    → (t' : Timer) × (run_ticks n t ≡ some t') × Ran n i t t'
unfolding run_ticks
run_ticks-Ran zero i t ready h p fits =
    (t, refl, record { ticks = omega arith; slots = refl; calls = rw add-zero refl })
run_ticks-Ran (suc n) i t ready h p fits =
    let (t', e, ran) = run_ticks-Ran n i t ready h p (omega arith) in
    let ready' : IsReady t' =
      subst (λ m. (j : ℕ) → (m.func_args j).timeout ≢ 0 → (f : ℕ) × (m.functions j ≡ some f))
        (sym ran.slots) ready in
    let (u, e', ran') = step-Ran n i t t' ready' h p (omega arith) ran in (u, rw e e', ran')
