-- ===== src/Cli.antt =====
-- main/cli: the console. A character is its code, and a string in an array ends at the first 0.
pub mod Trim
pub mod Command
pub mod Words
pub mod Console
mod Tests
