-- ===== src/Timer/Tests.antt =====
-- A timer with a function every three ticks in slot 1 and an empty slot 0.
use project_k.Base.{◌≡◌, refl, arith, true, false, none, some, [], ◌∷◌}
use project_k.Bus.{wrote}
use project_k.Timer.{
  Timer, TimerFuncArgs, timer_handler, timer_register_function, timer_set_frequency,
  add_timer_function, sleep_end,
}
use project_k.Timer.Ready.{
  IsReady, due_calls, ticked, with_calls, timer_handler-due_calls, timer_register_function-IsReady,
}
use project_k.Timer.Period.{Ran, run_ticks, run_ticks-Ran}

abbrev nothing : TimerFuncArgs
nothing = record { timeout = 0; user = 0 }

abbrev idle : Timer
idle = record {
  ticks = 5;
  freq_hz = 50;
  manager = record { current_index = 0; functions = λ i. none; func_args = λ i. nothing };
  calls = [];
  bus = [];
  interrupts_on = false;
}

abbrev every_three : TimerFuncArgs
every_three = record { timeout = 3; user = 9 }

abbrev busy : Timer
busy = timer_register_function (some 0x1234) (some every_three) idle

idle-IsReady : IsReady idle
idle-IsReady i h = absurd (h refl)

timer_register_function_IsReady_test : IsReady busy
timer_register_function_IsReady_test =
    timer_register_function-IsReady (some 0x1234) (some every_three) idle idle-IsReady

busy-IsReady : IsReady busy
busy-IsReady = timer_register_function-IsReady (some 0x1234) (some every_three) idle idle-IsReady

timer_handler-due_calls_example :
    timer_handler busy ≡ some (with_calls (ticked busy) (due_calls (ticked busy) 32))
timer_handler-due_calls_example = timer_handler-due_calls busy busy-IsReady

run_ticks-Ran_example : (t' : Timer) × (run_ticks 100 busy ≡ some t') × Ran 100 1 busy t'
unfolding timer_register_function
run_ticks-Ran_example =
    run_ticks-Ran 100 1 busy busy-IsReady (omega arith) (omega arith) (omega arith)

-- 50 Hz is the divisor 0x5D37 of the timer chip.
frequency_run :
    timer_set_frequency 50 idle
    ≡ some (record idle {
      bus = wrote 0x40 0x5D ∷ wrote 0x40 0x37 ∷ wrote 0x43 0x34 ∷ [];
      interrupts_on = true;
    })
unfolding timer_set_frequency
frequency_run = refl

sleep_run : sleep_end 2 (add_timer_function none 1 idle) ≡ 105
unfolding sleep_end add_timer_function timer_register_function
sleep_run = refl
