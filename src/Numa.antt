-- ===== src/Numa.antt =====
-- nodepilot/numa.py: CPU lists, the allocator of cores, and the pinning prefix.
pub mod Cores
pub mod CpuList
pub mod Allocate
pub mod Topology
