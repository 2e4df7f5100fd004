-- ===== src/Domain.antt =====
-- The Enterprise Domain: src/database/domain_repository.py and src/services/domain_service.py.
pub mod Tables
pub mod Repository
pub mod Service
