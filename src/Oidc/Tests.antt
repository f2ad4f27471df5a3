-- ===== src/Oidc/Tests.antt =====
-- Runs of the provider on concrete requests.
mod Data
mod Grants
mod Flows
