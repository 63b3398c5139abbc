-- ===== src/Mail.antt =====
-- crates/kotva-mail/src: strings and SASL credentials, the POP3 session over the mailboxes of Store, and the
-- SMTP session.
pub mod Text
pub mod Base64
pub mod Md5
pub mod Auth
pub mod Pop3
pub mod Smtp
pub mod Imap
pub mod Shelf
mod Tests
