-- ===== src/PgCron.antt =====
-- The app django_absurd.pg_cron.
pub mod Detection
pub mod Validators
pub mod Catalog
pub mod Rows
pub mod Reconcile
pub mod Checks
