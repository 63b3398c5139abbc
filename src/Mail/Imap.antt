-- ===== src/Mail/Imap.antt =====
-- crates/kotva-mail/src/imap: the parts of the IMAP session that stand by themselves.
pub mod Sequence
