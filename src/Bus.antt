-- ===== src/Bus.antt =====
-- Port input and output: the inline assembly of k/io.h. What the hardware answers is a parameter.
pub mod Traffic
use project_k.Base.{ℕ, ◌^◌, ◌≡◌, List, [], ◌∷◌, u8, u16}

-- One access of a port: the port and the value that went over the bus.
pub data Event : Type 0 where
  wrote : ℕ → ℕ → Event
  read : ℕ → ℕ → Event

-- All accesses so far, the newest first.
abbrev pub Bus : Type 0
Bus = List Event

-- The devices behind the ports: what a read of a port yields after the accesses so far.
abbrev pub Hardware : Type 0
Hardware = Bus → ℕ → ℕ

abbrev pub outb : ℕ → ℕ → Bus → Bus
outb port val bus = wrote (u16 port) (u8 val) ∷ bus

abbrev pub inb : Hardware → ℕ → Bus → ℕ × Bus
inb dev port bus = let v = u8 (dev bus (u16 port)) in (v, read (u16 port) v ∷ bus)

-- The 16-bit transfers; `inl` and `outl` of io.h are declared with 16-bit values too.
abbrev pub inw : Hardware → ℕ → Bus → ℕ × Bus
inw dev port bus = let v = u16 (dev bus (u16 port)) in (v, read (u16 port) v ∷ bus)

abbrev pub outw : ℕ → ℕ → Bus → Bus
outw port val bus = wrote (u16 port) (u16 val) ∷ bus

abbrev pub inl : Hardware → ℕ → Bus → ℕ × Bus
inl dev port bus = let v = u16 (dev bus (u16 port)) in (v, read (u16 port) v ∷ bus)

abbrev pub outl : ℕ → ℕ → Bus → Bus
outl port val bus = wrote (u16 port) (u16 val) ∷ bus

-- A write to an unused port, to wait.
abbrev pub iowait : Bus → Bus
iowait bus = outb 0x80 0 bus
