-- ===== src/Examples.antt =====
-- Concrete runs of the models, and the theorems at them.
mod Access
mod Domain
mod Analytics
mod Orchestrator
mod Events
mod Administration
mod Knowledge
mod Invitations
mod Identity
mod Performance
