-- ===== src/Timer/Ready.antt =====
-- The handler never calls through a null pointer.
use project_k.Base.{
  ℕ, zero, suc, ◌+◌, ◌%◌, ◌≡◌, ◌≢◌, refl, arith, ◌==◌, if◌then◌else◌, ◌++◌, Bool, not, ◌&&◌, u32,
  Bool-cases, inl, inr, Option, none, some, List, [], ◌∷◌,
}
use mathlib.Core.Option.{get_or}
use project_k.Timer.{
  TimerFunction, TimerFuncArgs, Call, Timer, fire, fire_slots, timer_handler,
  timer_register_function,
}

-- Every slot that can come due has a function.
abbrev pub IsReady : Timer → Type 0
IsReady t =
    (i : ℕ) → (t.manager.func_args i).timeout ≢ 0 → (f : ℕ) × (t.manager.functions i ≡ some f)

-- What a slot holds, and whether it comes due at the current tick.
abbrev pub timeout_of : Timer → ℕ → ℕ
timeout_of t i = (t.manager.func_args i).timeout

abbrev pub is_due : Timer → ℕ → Bool
is_due t i = not (timeout_of t i == 0) && t.ticks % timeout_of t i == 0

abbrev call_at : Timer → ℕ → Call
call_at t i = record {
  slot = i;
  function = get_or (t.manager.functions i) 0;
  args = t.manager.func_args i;
}

-- The calls of the slots below `n` that are due, the last first.
unfoldable pub due_calls : Timer → ℕ → List Call
due_calls t zero = []
due_calls t (suc n) = if is_due t n then call_at t n ∷ due_calls t n else due_calls t n

abbrev pub with_calls : Timer → List Call → Timer
with_calls t cs = record t { calls = cs ++ t.calls }

fire-is_due :
    (i : ℕ) (t : Timer) (cs : List Call)
    → IsReady t
    → fire i (with_calls t cs) ≡ some (with_calls t (if is_due t i then call_at t i ∷ cs else cs))
unfolding fire
fire-is_due i t cs h = elim (Bool-cases (timeout_of t i == 0)) [
  | inl e ↦ rw e
  | inr e ↦ rw (e, (h i (ground arith)).1) (ground arith)
]

pub fire_slots-due_calls :
    (n : ℕ) (t : Timer) → IsReady t → fire_slots n t ≡ some (with_calls t (due_calls t n))
unfolding fire_slots due_calls
fire_slots-due_calls zero t h = refl
fire_slots-due_calls (suc n) t h =
    rw (fire_slots-due_calls n t h) (fire-is_due n t (due_calls t n) h)

abbrev pub ticked : Timer → Timer
ticked t = record t { ticks = u32 (t.ticks + 1) }

-- If every slot with a timeout has a function, `timer_handler` ends with no call through a null
-- pointer: the tick is counted, and the functions called are those of the 32 slots that are due at
-- the new tick, each once and from the lowest slot up. No slot changes.
pub timer_handler-due_calls :
    (t : Timer)
    → IsReady t
    → timer_handler t ≡ some (with_calls (ticked t) (due_calls (ticked t) 32))
unfolding timer_handler
timer_handler-due_calls t h = fire_slots-due_calls 32 (ticked t) h

-- `timer_register_function` keeps every slot with a timeout a slot with a function, null pointers
-- among its arguments or not.
pub timer_register_function-IsReady :
    (f : TimerFunction) (args : Option TimerFuncArgs) (t : Timer)
    → IsReady t
    → IsReady (timer_register_function f args t)
unfolding timer_register_function
timer_register_function-IsReady none args t h = h
timer_register_function-IsReady (some f) none t h = h
timer_register_function-IsReady (some f) (some args) t h = λ i ne.
    let index = u32 (t.manager.current_index + 1) % 32 in
    elim (Bool-cases (i == index)) [
      | inl e ↦ (f, rw e)
      | inr e ↦ let old : timeout_of t i ≢ 0 = rw e at ne in ((h i old).0, rw e (h i old).1)
    ]
