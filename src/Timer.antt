-- ===== src/Timer.antt =====
-- The timer driver: k/timer.c with k/include/k/timer.h. The registered functions are addresses;
-- calling one is recorded, with the slot that it was called from.
pub mod Ready
pub mod Period
mod Tests
use project_k.Base.{
  ℕ, zero, suc, ◌+◌, ◌*◌, ◌/◌, ◌%◌, ◌^◌, ◌==◌, if◌then◌else◌, Bool, true, false, Option, none, some,
  List, ◌∷◌, u8, u16, u32, shr, low_bits,
}
use project_k.Bus.{Bus, outb}

pub record TimerFuncArgs : Type 0 where
  pub timeout : ℕ
  pub user : ℕ

-- `none` is the null pointer.
abbrev pub TimerFunction : Type 0
TimerFunction = Option ℕ

abbrev pub maximum_timer_functions : ℕ
maximum_timer_functions = 32

pub record TimerFunctionManager : Type 0 where
  pub current_index : ℕ
  pub functions : ℕ → TimerFunction
  pub func_args : ℕ → TimerFuncArgs

pub record Call : Type 0 where
  pub slot : ℕ
  pub function : ℕ
  pub args : TimerFuncArgs

pub record Timer : Type 0 where
  pub ticks : ℕ
  pub freq_hz : ℕ
  pub manager : TimerFunctionManager
  pub calls : List Call
  pub bus : Bus
  pub interrupts_on : Bool

abbrev put {ℓ} : {A : Type ℓ} → (ℕ → A) → ℕ → A → ℕ → A
put f n a m = if m == n then a else f m

-- `none` is the fault of a division by zero.
unfoldable pub timer_set_frequency : ℕ → Timer → Option Timer
timer_set_frequency freq t =
    if freq == 0
    then none
    else let divisor = u16 (1193182 / freq) in
      let bus = outb 0x43 0x34 t.bus in
      let bus = outb 0x40 (low_bits divisor 8) bus in
      let bus = outb 0x40 (low_bits (shr divisor 8) 8) bus in
      some (record t { freq_hz = freq; bus = bus; interrupts_on = true })

-- The body of the loop of `timer_handler` at slot `i`; a call through a null pointer is a fault.
unfoldable pub fire : ℕ → Timer → Option Timer
fire i t =
    let args = t.manager.func_args i in
    if args.timeout == 0
    then some t
    else if t.ticks % args.timeout == 0
    then elim (t.manager.functions i) [
      | none ↦ none
      | some f ↦
          some (record t { calls = record { slot = i; function = f; args = args } ∷ t.calls })
    ]
    else some t

infixl 5 ◌>>=◌
abbrev pub ◌>>=◌ : Option Timer → (Timer → Option Timer) → Option Timer
none >>= f = none
some t >>= f = f t

-- The loop over the slots, after `n` rounds.
unfoldable pub fire_slots : ℕ → Timer → Option Timer
fire_slots zero t = some t
fire_slots (suc n) t = fire_slots n t >>= fire n

unfoldable pub timer_handler : Timer → Option Timer
timer_handler t = fire_slots maximum_timer_functions (record t { ticks = u32 (t.ticks + 1) })

-- `none` for the second argument is a null pointer; the message of that branch goes to the console.
unfoldable pub timer_register_function : TimerFunction → Option TimerFuncArgs → Timer → Timer
timer_register_function none args t = t
timer_register_function (some f) none t = t
timer_register_function (some f) (some args) t =
    let index = u32 (t.manager.current_index + 1) % maximum_timer_functions in
    record t {
      manager = record {
        current_index = index;
        functions = put t.manager.functions index (some f);
        func_args = put t.manager.func_args index args;
      };
    }

unfoldable pub add_timer_function : TimerFunction → ℕ → Timer → Timer
add_timer_function function timeout t =
    timer_register_function function (some (record { timeout = timeout; user = 0 })) t

-- The tick at which `sleep` ends, as it is computed when the wait begins.
unfoldable pub sleep_end : ℕ → Timer → ℕ
sleep_end sec t = u32 (t.ticks + sec * t.freq_hz)
