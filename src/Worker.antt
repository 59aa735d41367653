-- ===== src/Worker.antt =====
-- django_absurd/worker.py.
pub mod Registry
pub mod Handler
pub mod Window
pub mod Runs
pub mod Drain
pub mod Beside
