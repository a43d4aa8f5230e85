-- ===== src/RvTypes.antt =====
-- include/rafi/common/RvTypes.h: the enumerations of the architecture.
use rafi_1st.Base.{
  ℕ, zero, suc, Bool, true, false, Result, ok, throw, not_implemented, switch, [], ◌∷◌,
}

-- enum class XLEN
pub data Xlen : Type 0 where
  xlen32 xlen64 xlen128 : Xlen

-- The two values of XLEN that a processor can be built with: `Csr::Csr` throws on the third, and
-- every part of a processor gets the XLEN of its `Csr`.
pub data SupportedXlen : Type 0 where
  rv32 rv64 : SupportedXlen

abbrev pub supported_xlen : Xlen → Result SupportedXlen
supported_xlen xlen32 = ok rv32
supported_xlen xlen64 = ok rv64
supported_xlen xlen128 = throw not_implemented

abbrev pub is_rv32 : SupportedXlen → Bool
is_rv32 rv32 = true
is_rv32 rv64 = false

abbrev pub is_rv64 : SupportedXlen → Bool
is_rv64 rv32 = false
is_rv64 rv64 = true

-- enum class AddressTranslationMode; `other` is a value that names no enumerator.
pub data AddressTranslationMode : Type 0 where
  bare sv32 sv39 sv48 sv57 sv64 other : AddressTranslationMode

-- static_cast<AddressTranslationMode>(value)
abbrev pub translation_mode_of_code : ℕ → AddressTranslationMode
translation_mode_of_code code =
    switch code ((0, bare) ∷ (1, sv32) ∷ (8, sv39) ∷ (9, sv48) ∷ (10, sv57) ∷ (11, sv64) ∷ []) other

-- enum class MemoryAccessType
pub data MemoryAccessType : Type 0 where
  instruction load store : MemoryAccessType

-- enum class PrivilegeLevel
pub data PrivilegeLevel : Type 0 where
  user supervisor reserved machine : PrivilegeLevel

-- static_cast<uint32_t>(level)
abbrev pub priv_code : PrivilegeLevel → ℕ
priv_code user = 0
priv_code supervisor = 1
priv_code reserved = 2
priv_code machine = 3

-- static_cast<PrivilegeLevel>(value). Only one-bit and two-bit members are cast.
abbrev pub priv_of_code : ℕ → PrivilegeLevel
priv_of_code zero = user
priv_of_code (suc zero) = supervisor
priv_of_code (suc (suc zero)) = reserved
priv_of_code (suc (suc (suc n))) = machine

abbrev pub is_user : PrivilegeLevel → Bool
is_user user = true
is_user _ = false

abbrev pub is_supervisor : PrivilegeLevel → Bool
is_supervisor supervisor = true
is_supervisor _ = false

abbrev pub is_machine : PrivilegeLevel → Bool
is_machine machine = true
is_machine _ = false

-- enum class TrapType
pub data TrapType : Type 0 where
  interrupt exception return : TrapType

-- enum class InterruptType
pub data InterruptType : Type 0 where
  user_software supervisor_software machine_software : InterruptType
  user_timer supervisor_timer machine_timer : InterruptType
  user_external supervisor_external machine_external : InterruptType

abbrev pub interrupt_code : InterruptType → ℕ
interrupt_code user_software = 0
interrupt_code supervisor_software = 1
interrupt_code machine_software = 3
interrupt_code user_timer = 4
interrupt_code supervisor_timer = 5
interrupt_code machine_timer = 7
interrupt_code user_external = 8
interrupt_code supervisor_external = 9
interrupt_code machine_external = 11

-- enum class ExceptionType
pub data ExceptionType : Type 0 where
  instruction_address_misaligned instruction_access_fault illegal_instruction : ExceptionType
  breakpoint load_address_misaligned load_access_fault : ExceptionType
  store_address_misaligned store_access_fault : ExceptionType
  environment_call_from_user environment_call_from_supervisor : ExceptionType
  environment_call_from_machine : ExceptionType
  instruction_page_fault load_page_fault store_page_fault : ExceptionType

abbrev pub exception_code : ExceptionType → ℕ
exception_code instruction_address_misaligned = 0
exception_code instruction_access_fault = 1
exception_code illegal_instruction = 2
exception_code breakpoint = 3
exception_code load_address_misaligned = 4
exception_code load_access_fault = 5
exception_code store_address_misaligned = 6
exception_code store_access_fault = 7
exception_code environment_call_from_user = 8
exception_code environment_call_from_supervisor = 9
exception_code environment_call_from_machine = 11
exception_code instruction_page_fault = 12
exception_code load_page_fault = 13
exception_code store_page_fault = 15
