-- ===== src/Gateway/Swept.antt =====
-- What the liveness sweep does to each agent: `compute_agent_liveness_transitions` of
-- apps/backend/app/core/agent_gateway/service.py.
