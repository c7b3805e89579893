-- ===== src/Serial/Tests.antt =====
-- Two bytes on a line that was at another speed.
use project_k.Base.{◌+◌, ◌≡◌, refl, [], ◌++◌}
use project_k.Bus.Traffic.{sent}
use project_k.Serial.{com1, init_serial, write}
use project_k.Serial.Sent.{bytes, Uart, uart_after, write-sent, init_serial-uart}

abbrev uart : Uart
uart = record { divisor = 0x0180; interrupts = 1; fifo = 0; line = 0x07 }

write-sent_test :
    ((write (λ i. i + b'a') 2 []).0 ≡ 2)
    × (sent com1 (write (λ i. i + b'a') 2 []).1 ≡ sent com1 [] ++ bytes (λ i. i + b'a') 2)
write-sent_test = write-sent (λ i. i + b'a') 2 []

init_serial-uart_example :
    uart_after uart (init_serial [])
    ≡ record { divisor = 3; interrupts = 0; fifo = 0xC7; line = 0x03 }
unfolding uart_after
init_serial-uart_example = init_serial-uart uart [] refl
