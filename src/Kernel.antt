-- ===== src/Kernel.antt =====
-- lab2/kernel and lab3/kernel: what the labs add to the xv6 kernel.
pub mod Sem
pub mod Priority
pub mod PingPong
