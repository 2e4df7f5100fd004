-- ===== src/Lib.antt =====
-- A model of the core of the project-management copilot, and what makes it correct.
--
-- The program is a Python service. Its domain (organizations, portfolios, programs and projects) is
-- kept by src/database/ and offered by src/services/domain_service.py, which records an audit entry
-- and publishes events for each write. src/services/events/ delivers the events to handlers, among
-- them the workflows of src/workflows/. src/services/executive_analytics/ computes the earned-value
-- metrics and the signals of a project. src/services/executive_orchestrator/ selects advisors for a
-- question, runs them over the evidence that they may see, and composes their explanations.
-- src/services/knowledge_platform/ keeps documents and their versions, splits them into chunks with
-- vectors, and searches them for the evidence that advisors cite. src/api/rate_limiter.py admits
-- requests and logins. src/database/administration_repository.py changes the users of an
-- organization, their roles, sessions and invitations, and src/services/identity/ checks who they are.
--
-- Which file models which part:
--   Common            lists, texts, integers, sorting and calls that raise, shared by the others
--   Analytics         metrics_engine.py and executive_signal_engine.py of
--                     src/services/executive_analytics/. `Decimal` is a parameter (Analytics/Decimal)
--                     of which a division by a number other than 0 is assumed to be defined.
--                     src/database/performance_repository.py is Analytics/Performance, with the service
--                     over it, performance_service.py, in Analytics/Performance/Service.
--   Domain            src/database/domain_repository.py (Domain/Repository, over the tables of
--                     Domain/Tables) and src/services/domain_service.py (Domain/Service). The order of
--                     a query's rows is a parameter, the collation of the database.
--   Access            src/api/rate_limiter.py: RateLimiter.allow is `allow`, LoginBruteForceGuard is
--                     `Guard` with `check`, `record_failure` and `record_success`. Time is a number of
--                     ticks.
--   Events            src/services/events/dispatcher.py and in_process_publisher.py (Events/Dispatch),
--                     src/workflows/runtime.py and execution_tracking.py (Events/Workflow)
--   Orchestrator      src/services/executive_orchestrator/, with AdvisorFramework.run of
--                     src/services/advisor_framework/framework.py and the recommendation and the
--                     explanation engine of src/services/ai_foundation/ (Orchestrator/Advising)
--   Knowledge         src/services/knowledge_platform/: knowledge_repository.py (`_chunk_text` is
--                     Knowledge/Chunking, `ingest` and `index` Knowledge/Repository, the queries and
--                     `similarity_search` of vector_repository.py Knowledge/Queries) and
--                     document_ingestion_service.py (Knowledge/Ingestion). The embedding provider,
--                     `str.strip` and the order of pgvector are parameters.
--   Administration    src/database/administration_repository.py: roles and activation
--                     (Administration/Accounts), `create_user` and `update_user`
--                     (Administration/Users), invitations (Administration/Invitations) and the audit
--                     log (Administration/AuditLog)
--   Identity          sessions of the same repository (Identity/Sessions), `authenticate` of
--                     src/services/identity/auth_service.py (Identity/Authentication) and `login` of
--                     src/api/routes/auth.py over the guard of Access (Identity/Login). `str.strip`,
--                     `str.lower`, the database's `lower` and Argon2 are parameters.
--   Examples          concrete runs, and the theorems at them
--
-- A method that raises is an `err` of a Result. A write comes back as the new tables; one that raises
-- has committed nothing. Shared state that a method changes (tables, audit, published events, the hits
-- of the limiter) is passed in and returned. The loop over the attempts of a handler runs on the
-- attempts that are left, three at first; the loop over a text takes a turn for each character at most
-- (Knowledge/Chunking); all other loops run over a list.
--
-- Not modelled: the locks of rate_limiter.py, since each critical section is one step here; logging;
-- the foreign keys of the knowledge tables, where the organization and the project of a call exist;
-- the HTTP routes but for the login, with their authorization checks; the bootstraps of
-- src/services/identity/; API keys and the rest of src/services/administration_service.py; the
-- analysis repository; backup and restore; of the knowledge platform the memory service, the ranking
-- of rag_pipeline.py, the external sources and the concrete embedding providers; the advisors' prompts
-- and the clients of language models, which are operations of a record in Orchestrator/Advising;
-- migrations, scripts and the web front end.
pub mod Common
pub mod Analytics
pub mod Domain
pub mod Access
pub mod Events
pub mod Orchestrator
pub mod Administration
pub mod Identity
pub mod Knowledge
pub mod Examples
