-- ===== src/Webhook.antt =====
-- webhook-router: events of GitHub go to the services and to the queue of issues.
pub mod Limits
pub mod Context
pub mod Credentials
pub mod Route
pub mod Handler
