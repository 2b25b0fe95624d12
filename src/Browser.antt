-- ===== src/Browser.antt =====
-- src/apps/browser.c: URLs, HTTP responses and HTML documents.
pub mod Words
pub mod Url
pub mod Http
pub mod Html
mod Tests
