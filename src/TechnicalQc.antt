-- ===== src/TechnicalQc.antt =====
-- The technical check of uploaded media: backend/app/technical_qc.py.
pub mod Tasks
pub mod Selection
pub mod Claims
pub mod Workers
pub mod Intervals
mod Examples
