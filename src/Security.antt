-- ===== src/Security.antt =====
-- kernel/security: system call filters.
pub mod Seccomp
