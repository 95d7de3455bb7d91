-- ===== src/Xdp.antt =====
-- ebpf/xdp_prog.c: the packet filter. One module per function or group of functions.
pub mod Types
pub mod State
pub mod Clock
pub mod Config
pub mod Attack
pub mod Flow
pub mod Udp
pub mod Dns
pub mod Fragment
pub mod Rules
pub mod Syn
pub mod Bucket
pub mod Packet
pub mod Account
pub mod Untouched
pub mod Prog
pub mod Samples
mod Tests
