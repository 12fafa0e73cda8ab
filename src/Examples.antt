-- ===== src/Examples.antt =====
-- The theorems at concrete inputs.
mod Core
mod Net
mod Report
mod Threads
mod Output
mod System
mod Program
