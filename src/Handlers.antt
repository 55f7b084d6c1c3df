-- ===== src/Handlers.antt =====
-- app/src/handlers, app/src/dispatcher.rs and app/src/utils: what happens between the host and the parser.
pub mod UiMessage
pub mod Lock
pub mod Apdu
pub mod Upload
