-- ===== src/Ide/Wait.antt =====
-- The waits on the status register end at its first reading that is not busy.
use project_k.Base.{
  ℕ, zero, suc, ◌+◌, ◌<◌, ◌≡◌, refl, ◌∙◌, arith, Bool, true, false, if◌then◌else◌, inl, inr,
  Bool-cases, ◌∷◌, u8, u16, has_bit,
}
use project_k.Bus.{Bus, Hardware, read}
use project_k.Ide.{Ide, ended, port_of, read_port, ide_read_register, busy_wait}

module _ (dev : Hardware) (port : ℕ) where
  -- The answer of the status port after a history, and the history after `n` readings of it.
  abbrev pub answer : Bus → ℕ
  answer bus = u8 (dev bus port)

  unfoldable pub polls : ℕ → Bus → Bus
  polls zero bus = bus
  polls (suc n) bus = polls n (read port (answer bus) ∷ bus)

  abbrev pub busy_at : Bus → ℕ → Bool
  busy_at bus n = has_bit (answer (polls n bus)) 7

  -- Within `fuel` readings one is not busy.
  abbrev pub Settles : ℕ → Bus → Type 0
  Settles fuel bus = (n : ℕ) × (n < fuel) × (busy_at bus n ≡ false)

  -- The history after the wait: `n` readings that were busy, and one that was not.
  pub record Waited (bus after : Bus) : Type 0 where
    pub readings : ℕ
    pub history : after ≡ polls (suc readings) bus
    pub free : busy_at bus readings ≡ false
    pub busy : (j : ℕ) → j < readings → busy_at bus j ≡ true

  Waited-suc :
      (bus after : Bus)
      → busy_at bus 0 ≡ true
      → Waited (read port (answer bus) ∷ bus) after
      → Waited bus after
  unfolding polls
  Waited-suc bus after first w = record {
    readings = suc w.readings;
    history = w.history;
    free = w.free;
    busy = earlier;
  }
    where
      earlier : (j : ℕ) → j < suc w.readings → busy_at bus j ≡ true
      earlier zero h = first
      earlier (suc j) h = w.busy j (omega arith)

  Settles-rest :
      (fuel : ℕ) (bus : Bus)
      → busy_at bus 0 ≡ true
      → Settles (suc fuel) bus
      → Settles fuel (read port (answer bus) ∷ bus)
  unfolding polls
  Settles-rest fuel bus first (zero, h, free) = absurd (ground arith)
  Settles-rest fuel bus first (suc n, h, free) = (n, omega arith, free)

module _ (dev : Hardware) (garbage channel : ℕ) where
  abbrev pub status_port : Ide → ℕ
  status_port s = u16 ((s.channels channel).base + 7)

  busy_wait-suc :
      (fuel : ℕ) (s : Ide)
      → let next = record s {
        bus = read (status_port s) (answer dev (status_port s) s.bus) ∷ s.bus;
      } in
        busy_wait dev garbage (suc fuel) channel s ≡ (
          if busy_at dev (status_port s) s.bus 0
          then busy_wait dev garbage fuel channel next
          else ended next)
  unfolding busy_wait ide_read_register read_port port_of polls
  busy_wait-suc fuel s = refl

  -- If one of the next `fuel` readings of the status register is not busy, `busy_wait` ends: it has
  -- read the register until the first such reading, and changed nothing else.
  pub busy_wait-Waited :
      (fuel : ℕ) (s : Ide)
      → Settles dev (status_port s) fuel s.bus
      → (bus : Bus) × (busy_wait dev garbage fuel channel s ≡ ended (record s { bus = bus }))
        × Waited dev (status_port s) s.bus bus
  busy_wait-Waited zero s (n, h, free) = absurd (omega arith)
  busy_wait-Waited (suc fuel) s settles =
      let port = status_port s in
      let next = read port (answer dev port s.bus) ∷ s.bus in
      elim (Bool-cases (busy_at dev port s.bus 0)) [
        | inl e ↦
            let (bus, r, w) =
              busy_wait-Waited fuel (record s { bus = next })
                (Settles-rest dev port fuel s.bus e settles) in
            (bus, busy_wait-suc fuel s ∙ rw e r, Waited-suc dev port s.bus bus e w)
        | inr e ↦ (
          next,
          busy_wait-suc fuel s ∙ rw e,
          record {
            readings = 0;
            history = unfold polls in refl;
            free = e;
            busy = λ j h. absurd (omega arith);
          },
        )
      ]
