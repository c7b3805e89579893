-- ===== src/Bus/Traffic.antt =====
-- What went to one port, of all the accesses of the bus.
use project_k.Base.{ℕ, ◌==◌, if◌then◌else◌, List, [], ◌∷◌, ◌++◌}
use project_k.Bus.{Bus, wrote, read}

-- The values written to a port, the oldest first.
unfoldable pub sent : ℕ → Bus → List ℕ
sent port [] = []
sent port (wrote p v ∷ bus) = if p == port then sent port bus ++ (v ∷ []) else sent port bus
sent port (read p v ∷ bus) = sent port bus
