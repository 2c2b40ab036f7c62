-- ===== src/Screen.antt =====
-- kernel/screen: the console.
pub mod Console
