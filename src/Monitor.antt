-- ===== src/Monitor.antt =====
-- lib/readline.c and kern/monitor.c: the line editor, and the commands of the kernel monitor.
pub mod Readline
pub mod Parse
pub mod Command
pub mod Backtrace
pub mod Output
mod Tests
