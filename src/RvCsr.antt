-- ===== src/RvCsr.antt =====
-- include/rafi/common/RvCsr.h: the addresses and the fields of the control and status registers.
pub mod Addr
pub mod Misa
pub mod Fcsr
pub mod Status
pub mod Tvec
pub mod Ip
pub mod Ie
pub mod Satp
