-- ===== src/Authn.antt =====
-- internal/authn: who a bearer token speaks for. The children model the claims (claims.go and the
-- extraction functions of oidc_issuer.go), the publisher issuers (publisher/*.go), the human identity
-- provider (oidc_issuer.go) and the registry that chooses among them (registry.go, authn.go).
pub mod Claims
pub mod Jwt
pub mod Publisher
pub mod Oidc
pub mod Registry
