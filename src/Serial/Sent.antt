-- ===== src/Serial/Sent.antt =====
-- What goes out on the line.
use project_k.Base.{
  ℕ, zero, suc, ◌+◌, ◌*◌, ◌/◌, ◌%◌, ◌≡◌, refl, arith, ◌==◌, false, if◌then◌else◌, List, [], ◌∷◌,
  ◌++◌, u8, has_bit,
}
use mathlib.Core.List.{append-nil, append_assoc}
use project_k.Bus.{Event, wrote, read, Bus}
use project_k.Bus.Traffic.{sent}
use project_k.Serial.{com1, init_serial, write_loop, write}

-- The first `n` bytes of a buffer.
unfoldable pub bytes : (ℕ → ℕ) → ℕ → List ℕ
bytes buf zero = []
bytes buf (suc n) = bytes buf n ++ (u8 (buf n) ∷ [])

write_loop-sent :
    (buf : ℕ → ℕ) (n : ℕ) (bus : Bus)
    → sent com1 (write_loop buf n bus) ≡ sent com1 bus ++ bytes buf n
unfolding write_loop sent bytes
write_loop-sent buf zero bus = rw append-nil
write_loop-sent buf (suc n) bus = rw (write_loop-sent buf n bus) (simp append_assoc)

-- `write` sends the bytes of the buffer to the port of the line, in order, and returns their number.
pub write-sent :
    (buf : ℕ → ℕ) (count : ℕ) (bus : Bus)
    → ((write buf count bus).0 ≡ count)
      × (sent com1 (write buf count bus).1 ≡ sent com1 bus ++ bytes buf count)
unfolding write
write-sent buf count bus = (refl, write_loop-sent buf count bus)

-- The controller of the line. While bit 7 of the line control register is set, the first two
-- ports are the divisor.
pub record Uart : Type 0 where
  pub divisor : ℕ
  pub interrupts : ℕ
  pub fifo : ℕ
  pub line : ℕ

uart_step : Event → Uart → Uart
uart_step (wrote p v) u =
    if p == com1 + 3
    then record u { line = v }
    else if p == com1 + 2
    then record u { fifo = v }
    else if p == com1 + 1
    then (if has_bit u.line 7
        then record u { divisor = u.divisor % 256 + 256 * v }
        else record u { interrupts = v })
    else if p == com1
    then (if has_bit u.line 7 then record u { divisor = u.divisor / 256 * 256 + v } else u)
    else u
uart_step (read p v) u = u

unfoldable pub uart_after : Uart → Bus → Uart
unfolding uart_step
uart_after u [] = u
uart_after u (e ∷ bus) = uart_step e (uart_after u bus)

-- A controller that is not in the middle of a change of its divisor has, after `init_serial`, the
-- divisor 3, no interrupts, the queues on, and 8 data bits with no parity and one stop bit.
pub init_serial-uart :
    (u : Uart) (bus : Bus)
    → has_bit (uart_after u bus).line 7 ≡ false
    → uart_after u (init_serial bus)
      ≡ record { divisor = 3; interrupts = 0; fifo = 0xC7; line = 0x03 }
unfolding init_serial uart_after
init_serial-uart u bus h =
    let low : ((uart_after u bus).divisor / 256 * 256 + 3) % 256 ≡ 3 = omega arith in rw (h, low)
