-- ===== src/Orchestrator.antt =====
-- Executive Intelligence: src/services/executive_orchestrator/, with the parts of
-- src/services/ai_foundation/ and src/services/advisor_framework/ that it runs.
pub mod Types
pub mod Catalog
pub mod Selection
pub mod Advising
pub mod Provisioning
pub mod Correlation
pub mod Run
