-- ===== src/Shared.antt =====
-- go-shared: helpers of the services.
pub mod Crypto
