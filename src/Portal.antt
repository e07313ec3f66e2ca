-- ===== src/Portal.antt =====
-- components/provisioning/provisioning.c: the web server of the setup portal and of the settings. Its forms,
-- the cookies of its requests, and the sessions of signed-in browsers.
pub mod Forms
pub mod Cookies
pub mod Sessions
mod Tests
