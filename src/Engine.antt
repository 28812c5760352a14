-- ===== src/Engine.antt =====
-- integration/overlay/internal/engine/breg/authenticator.go: the adapter between the eSignet engine and
-- the provider.
mod Defs
mod Binding
mod Rules
mod Release
mod SignOn
mod Startup
mod Consent
mod Tests
