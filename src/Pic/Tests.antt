-- ===== src/Pic/Tests.antt =====
-- The driver of the interrupt controllers on concrete lines, offsets and answers.
use project_k.Base.{ℕ, ◌+◌, ◌*◌, ◌≡◌, refl, true, false, arith, [], ◌∷◌}
use project_k.Bus.{Bus, Hardware, wrote, read}
use project_k.Pic.{masked, irq_set_mask, irq_clear_mask, init_pic_8259, read_register}
use project_k.Pic.Masks.{OnlyBit, irq_set_mask-OnlyBit, irq_clear_mask-OnlyBit}
use project_k.Pic.Commands.{
  Chip, word3, master, slave, set_up, init_pic_8259-set_up, read_register-slave,
}

-- Every port answers 0xB8.
abbrev answer : Hardware
answer bus port = 0xB8

-- A chip that was left in the middle of its initialization.
abbrev halfway : Chip
halfway = record {
  phase = word3;
  single = true;
  level = true;
  fourth = false;
  offset = 8;
  cascade = 0;
  mode = 0;
  mask = 0x55;
}

abbrev running : Bus
running = init_pic_8259 0x20 0x28 []

set_mask_run : irq_set_mask answer 9 [] ≡ wrote 0xA1 0xBA ∷ read 0xA1 0xB8 ∷ []
unfolding irq_set_mask masked
set_mask_run = refl

irq_set_mask-OnlyBit_example :
    (after : ℕ) × (irq_set_mask answer 9 [] ≡ wrote 0xA1 after ∷ read 0xA1 0xB8 ∷ [])
    × OnlyBit (λ _. true) 9 0xB8 after
irq_set_mask-OnlyBit_example = irq_set_mask-OnlyBit answer 9 [] (omega arith)

irq_clear_mask-OnlyBit_test :
    (after : ℕ) × (irq_clear_mask answer 3 [] ≡ wrote 0x21 after ∷ read 0x21 0xB8 ∷ [])
    × OnlyBit (λ _. false) 3 0xB8 after
irq_clear_mask-OnlyBit_test = irq_clear_mask-OnlyBit answer 3 [] (omega arith)

init_pic_8259-set_up_example :
    (master halfway (init_pic_8259 0x20 0x28 []) ≡ set_up 0x20 4)
    × (slave halfway (init_pic_8259 0x20 0x28 []) ≡ set_up 0x28 2)
init_pic_8259-set_up_example =
    init_pic_8259-set_up halfway halfway 0x20 0x28 [] (omega arith) (omega arith)

read_register_run :
    (lo hi : ℕ) × ((read_register answer 0x0A []).0 ≡ hi * 256 + lo)
    × ((read_register answer 0x0A []).1
        ≡ read 0xA0 hi ∷ read 0xA0 lo ∷ wrote 0xA0 0x0A ∷ wrote 0x20 0x0A ∷ [])
read_register_run = read_register-slave answer 0x0A [] (omega arith)
