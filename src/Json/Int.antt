-- ===== src/Json/Int.antt =====
-- Python's unbounded integers, as far as the program tells their signs apart.
use technocore_safe_agent.Base.{ℕ}

-- `negsuc n` is -(n + 1).
pub data ℤ : Type 0 where
  pos : ℕ → ℤ
  negsuc : ℕ → ℤ
