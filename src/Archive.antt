-- ===== src/Archive.antt =====
-- integration/modulearchive/main.go: the check and the extraction of a module archive.
mod Defs
mod Places
mod Safety
mod Complete
mod Tests
