-- ===== src/Cheat.antt =====
-- web/nitepr5_core/cheat.py: hexadecimal texts (Hex), JSON values (Json), the cheat files that they
-- stand for (File) and the modules of a process (Modules).
pub mod Hex
pub mod Json
pub mod File
pub mod Modules
