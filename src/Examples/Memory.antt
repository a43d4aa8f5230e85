-- ===== src/Examples/Memory.antt =====
-- A page table in a memory on the bus, and the accesses through it
-- (src/bin/rafi-emu/cpu/MemoryAccessUnit.cpp, src/lib/emu).
use rafi_1st.Base.{
  ℕ, ◌+◌, ◌*◌, ◌%◌, ◌^◌, ◌≡◌, ◌↔◌, ◌==◌, ◌||◌, ◌&&◌, refl, true, arith, none, ok, throw, emu_error,
  [], ◌∷◌,
}
use rafi_1st.Base.Bits.{test_bit}
use rafi_1st.BitField.{get_member, set_member}
use rafi_1st.RvTypes.{rv32, user, load, store, sv32}
use rafi_1st.PageTable.Sv32
use rafi_1st.PageTable.Sv48
use rafi_1st.PageTable.Layout.{Sv48-physical_address_lem}
use rafi_1st.Emu.Memory.{Memory, ram, load_bytes, store_bytes}
use rafi_1st.Emu.Memory as Memory
use rafi_1st.Emu.Bus.{Io, BusState, bus_of, is_address}
use rafi_1st.Emu.Bus as Bus
use rafi_1st.Emu.Bus.RoundTrip.{read-write_lem}
use rafi_1st.Cpu.Csr.{Csr, initial_csr, read_status}
use rafi_1st.Cpu.Action.{value}
use rafi_1st.Cpu.Action.Follows.{NotTrapped}
use rafi_1st.Cpu.MemoryAccessUnit.{
  MemoryAccessUnit, get_address_translation_mode, get_effective_privilege_level,
  check_trap_for_entry, check_trap_for_leaf_entry, updated_entry,
}
use rafi_1st.Cpu.MemoryAccessUnit.Check.{check_trap}
use rafi_1st.Cpu.MemoryAccessUnit.Translate.{translate}
use rafi_1st.Cpu.MemoryAccessUnit.Walk.Reference.{reference_translate, paging_mode}
use rafi_1st.Cpu.MemoryAccessUnit.Walk.Translate.{translate-eq-reference}
use rafi_1st.Cpu.MemoryAccessUnit.Contract.{translate-NotTrapped}
use rafi_1st.Cpu.MemoryAccessUnit.Permission.{
  IsAllowed, check_trap_for_leaf_entry-none_iff, test_bit-updated_entry,
}

abbrev no_device : Io (Unit {0})
no_device = record {
  read = λ size offset d. throw emu_error;
  write = λ size offset v d. throw emu_error;
}

-- A page of 4 MiB, readable, writable and executable in user mode: number 2 of its size
abbrev page : ℕ
page = 2 * 2 ^ 20 + 0x1f

-- 8 KiB of memory at 0x1000, with the entry of the virtual addresses from 0x400000
abbrev tables : BusState (Unit {0})
tables = record {
  memory_list =
      record { target = ram 8192 (store_bytes (λ _. 0) 4 4 page); address = 0x1000; size = 8192 }
      ∷ [];
  io_list = [];
}

-- A user program on RV32 under Sv32, with the table at 0x1000
abbrev paged : Csr
paged = record (initial_csr rv32 0x80000000) {
  priv = user;
  supervisor_address_translation_protection = 2 ^ 31 + 1;
}

abbrev unit : MemoryAccessUnit (BusState (Unit {0}))
unit = record { xlen = rv32; bus = bus_of no_device; csr = paged }

translate-eq-reference_example :
    translate unit load 0x400123 0x1000 tables
    ≡ reference_translate (paging_mode unit load) unit load 0x400123 0x1000 tables
translate-eq-reference_example = translate-eq-reference unit load 0x400123 0x1000 tables

in_sv32 : get_address_translation_mode unit load ≡ sv32
unfolding get_address_translation_mode get_effective_privilege_level read_status get_member
in_sv32 = refl

-- The check passes, and leaves the bus as it is.
passes : check_trap unit load 0x1000 0x400123 tables ≡ ok (value tt, tables)
unfolding check_trap get_address_translation_mode get_effective_privilege_level read_status
    get_member set_member Sv32.table_address Bus.read is_address Memory.read store_bytes
    check_trap_for_entry check_trap_for_leaf_entry
passes = refl

translate-NotTrapped_example : NotTrapped (translate unit load 0x400123 0 tables)
translate-NotTrapped_example =
    translate-NotTrapped unit load 0x400123 0x1000 0 tables tables (λ e. cc (in_sv32, e)) passes

check_trap_for_leaf_entry-none_iff_example :
    (check_trap_for_leaf_entry paged page store 0x1000 0x400123 ≡ none) ↔ IsAllowed paged page store
check_trap_for_leaf_entry-none_iff_example =
    check_trap_for_leaf_entry-none_iff paged page store 0x1000 0x400123

test_bit-updated_entry_example :
    test_bit (updated_entry 32 page true) 7 ≡ (test_bit page 7 || 7 == 6 || (true && 7 == 7))
test_bit-updated_entry_example = test_bit-updated_entry 32 page true 7 (omega arith) (omega arith)

Sv48-physical_address_lem_example :
    Sv48.physical_address 1 2 3 4 5 ≡ 1 * 2 ^ 39 + 2 * 2 ^ 30 + 3 * 2 ^ 21 + 4 * 2 ^ 12 + 5
Sv48-physical_address_lem_example =
    Sv48-physical_address_lem 1 2 3 4 5 (omega arith) (omega arith) (omega arith) (omega arith)
      (omega arith)

-- A word written behind the table
abbrev after_write : BusState (Unit {0})
after_write = record {
  memory_list =
      record {
        target = ram 8192 (store_bytes (store_bytes (λ _. 0) 4 4 page) 4 16 0xdeadbeef);
        address = 0x1000;
        size = 8192;
      }
      ∷ [];
  io_list = [];
}

write_returns : Bus.write no_device 4 0x1010 0xdeadbeef tables ≡ ok after_write
unfolding Bus.write Bus.replace is_address Memory.write
write_returns = refl

in_memory :
    (is_address tables.memory_list 0x1010 1 ≡ true)
    × (is_address tables.memory_list 0x1010 4 ≡ true)
unfolding is_address
in_memory = (refl, refl)

read-write_lem_example :
    Bus.read no_device 4 0x1010 after_write ≡ ok (0xdeadbeef % 256 ^ 4, after_write)
read-write_lem_example =
    read-write_lem no_device 4 0x1010 0xdeadbeef tables after_write in_memory.0 in_memory.1
      write_returns
