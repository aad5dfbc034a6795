-- ===== src/Tests.antt =====
-- Concrete disks and states, and the theorems applied to them.
mod Machine
mod Driver
mod Disk
mod Blocs
mod Files
mod Paths
mod Processes
mod Contexts
mod Lookups
mod Folder
mod Entries
mod Commands
mod Producers
mod Programs
