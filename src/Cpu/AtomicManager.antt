-- ===== src/Cpu/AtomicManager.antt =====
-- src/bin/rafi-emu/cpu/AtomicManager.h and .cpp: the reservation of LR and SC. IsReserved and
-- GetReservedAddress are the fields.
use rafi_1st.Base.{ℕ, Bool, true, false}

pub record AtomicManager : Type 0 where
  pub address : ℕ
  pub is_reserved : Bool

abbrev pub initial_atomic_manager : AtomicManager
initial_atomic_manager = record { address = 0; is_reserved = false }

unfoldable pub reserve : AtomicManager → ℕ → AtomicManager
reserve a addr = record { address = addr; is_reserved = true }

unfoldable pub cancel : AtomicManager → AtomicManager
cancel a = record a { is_reserved = false }
