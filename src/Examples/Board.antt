-- ===== src/Examples/Board.antt =====
-- A small processor: its bus, and functions of SoftFloat and of the wide products that give 0.
use rafi_1st.Base.{refl, arith, false, Result, ok, throw, []}
use rafi_1st.RvTypes.{rv64, machine_timer}
use rafi_1st.Fp.SoftFloat.{SoftFloat}
use rafi_1st.Cpu.Csr.{initial_csr}
use rafi_1st.Cpu.AtomicManager.{initial_atomic_manager}
use rafi_1st.Cpu.IntRegFile.{initial_int_reg_file}
use rafi_1st.Cpu.FpRegFile.{initial_fp_reg_file}
use rafi_1st.Cpu.Executor.Machine.{Environment}
use rafi_1st.Cpu.Executor.WellFormed.{IsWellFormed}
use rafi_1st.Cpu.Processor.{Processor}

-- Every function gives 0.
abbrev pub no_float : SoftFloat
no_float = record {
  f_add = λ f x y s. (0, s);
  f_sub = λ f x y s. (0, s);
  f_mul = λ f x y s. (0, s);
  f_div = λ f x y s. (0, s);
  f_sqrt = λ f x s. (0, s);
  f_eq = λ f x y s. (false, s);
  f_le = λ f x y s. (false, s);
  f_lt = λ f x y s. (false, s);
  f_le_quiet = λ f x y s. (false, s);
  f_to_i32 = λ f x r s. (0, s);
  f_to_i64 = λ f x r s. (0, s);
  f_to_ui32 = λ f x r s. (0, s);
  f_to_ui64 = λ f x r s. (0, s);
  i32_to_f = λ f x s. (0, s);
  i64_to_f = λ f x s. (0, s);
  ui32_to_f = λ f x s. (0, s);
  ui64_to_f = λ f x s. (0, s);
  f64_to_f32 = λ x s. (0, s);
  f32_to_f64 = λ x s. (0, s);
}

-- A bus whose every word is `addi x1, x0, 5`
abbrev pub board : Environment (Unit {0})
board = record {
  xlen = rv64;
  bus = record { read = λ size address b. ok (0x00500093, b); write = λ size address v b. ok b };
  multiply = record { high_signed = λ a b. 0; high_mixed = λ a b. 0; high_unsigned = λ a b. 0 };
  softfloat = no_float;
}

abbrev pub start : Processor (Unit {0})
start = record {
  machine = record {
    atomic = initial_atomic_manager;
    csr = initial_csr rv64 0x80000000;
    int_regs = initial_int_reg_file;
    fp_regs = initial_fp_reg_file;
    memory = (tt, []);
    float = record { exception_flags = 0; rounding_mode = 0 };
  };
  interrupt_controller = record { is_requested = false; interrupt_type = machine_timer };
}

-- What a run ends in, with a state to give if it does not
abbrev pub ends_in : {A S : Type 0} → S → Result (A × S) → S
ends_in other (ok (a, s)) = s
ends_in other (throw fault) = other

pub start-IsWellFormed : IsWellFormed start.machine
start-IsWellFormed =
    (record { zero_register = refl; words = λ i. omega arith }, record { words = λ i. omega arith })
