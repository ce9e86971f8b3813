-- ===== src/Fraud.antt =====
-- apps/api/src/modules/fraud/internal/rule-engine.ts: the fraud scoring of a conversion.
pub mod Rules
pub mod Engine
pub mod Severity
mod Tests
