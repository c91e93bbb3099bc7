-- ===== src/Ports.antt =====
-- The ports of the processor as the drivers use them (include/io.h): each access changes the state
-- of the devices behind the ports.
use hazle_os.Prelude.{ℕ}

pub record Ports : Type 1 where
  pub State : Type 0
  pub inb : (port : ℕ) → State → ℕ × State
  pub outb : (port value : ℕ) → State → State
  pub inw : (port : ℕ) → State → ℕ × State
  pub outw : (port value : ℕ) → State → State
