-- ===== src/Tests.antt =====
-- The theorems applied at concrete machines, heaps and kernels, with runs of the code.
mod Machine
mod Heap
mod Tasks
mod Apps
mod Files
mod Calls
mod Volumes
mod Programs
mod Boot
