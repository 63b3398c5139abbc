-- ===== src/Lib.antt =====
-- The reference implementation of DMTAP, in Rust: the canonical codec of its wire objects, content addresses
-- and signatures, the negotiation of cipher suites, the recipient's checks, location records, attenuable
-- capabilities, the key-transparency log, the messages with their building and validation, and the mail
-- server with its mailboxes and its POP3 and submission sessions and the sequence sets of IMAP.
--
-- The files and the code that they model, from the root of the repository:
--
--   Cbor      crates/kotva-core/src/cbor.rs. Cbor/Value is `Cv` (a map is `pair`s behind each other),
--             Cbor/Encode is `encode`, Cbor/Decode is `decode`, Cbor/Reader is `Fields` with `as_u64`
--             and the other coercions, Cbor/Equality is the derived `==`. The functions keep their
--             names; `Decoder::value` is `value`, and its cases are `dispatch`. The cursor of the decoder
--             is the list of the bytes that are left. Text is its UTF-8 bytes, and Cbor/Utf8 is the test
--             `std::str::from_utf8` makes. Cbor/Canonical says which values the format admits; the
--             other files are proofs.
--   Id, Keys  crates/kotva-core/src/id.rs, and of crates/kotva-core/src/identity.rs the signatures under
--             a domain: `verify_domain` and `IdentityKey`.
--   Pq        crates/kotva-core/src/pq.rs: the hybrid signatures, `HybridSigningKey` and `verify_hybrid_domain`.
--   Suite     crates/kotva-core/src/suite.rs: `Suite`, `negotiate_suite`, `SuiteRatchet`. The map of the
--             ratchet is an association list (Prelude/Assoc).
--   Policy    crates/kotva-core/src/policy.rs: `CallerPolicy` and its predicates; the set of ids is a list.
--   Location  crates/kotva-core/src/location.rs: `LocationRecord`, on the reader of Cbor/Reader, and
--             `LocationTracker`, whose map is an association list.
--   Capability  crates/kotva-core/src/capability.rs. Capability/Wire is the codec of its objects; the
--             methods of the three objects are told apart by their names, as `verify_token`,
--             `verify_revocation` and `verify_announcement`. Capability/Covers and
--             Capability/Narrowing are about the order of grants, Capability/Chain and Capability/Issue
--             about chains of tokens, Capability/Announce about the tracker.
--   Kt        crates/kotva-core/src/kt.rs. Kt/Wire is the codec of the three wire objects, on the reader
--             of Cbor/Reader; Kt/Merkle is the RFC 6962 arithmetic, `fold_inclusion`, `verify_root` and
--             `MerkleTree`; Kt/Consistency is `verify_consistency` and `consistency_path`. A digest and
--             a `ContentId` are their bytes.
--   Mote      crates/kotva-core/src/mote.rs. Mote/Kind has the kinds and the errors, Mote/Challenge the
--             challenges and the delivery tag, Mote/File the attachments with their tiers, durability and the spool,
--             Mote/Envelope the envelope and the payload, and Mote/Validate is `build_mote`, `build_mote_hybrid`,
--             `validate` and `validate_pinned`. The two functions that build differ in how they sign: `build_with`
--             is their common body, over a `Signer`. Mote/ReadBack and Mote/OnWire are about the
--             codecs, Mote/Delivered and Mote/Hybrid about a message on its way, and Mote/Checks and Mote/Pinned,
--             on Mote/Anonymous and Mote/Opening, about what `validate` accepts.
--   Store     crates/kotva-mail/src/store.rs: `Message` and `Mailbox`. `search` is the binary search that
--             `index_of_uid` calls. Store/Memory is `MemoryStore`.
--             Store/Keep has the operations of a mailbox as a data type, `Op`, to speak of histories.
--   Mail      crates/kotva-mail/src: Mail/Base64 and Mail/Md5 are util.rs, Mail/Auth is auth.rs, Mail/Pop3 is
--             pop3.rs, Mail/Smtp is smtp.rs and Mail/Imap/Sequence is imap/sequence.rs. A session is
--             a record, and a handler returns the reply and the session after it. A string
--             is its UTF-8 bytes; Mail/Text is what the sessions use of Rust's strings. The verbs
--             of a session are a table and a data type.
--             Mail/Shelf has what a client asks of a mailbox as a data type, and the map that it sees.
--   Prelude, Result   lists, bytes, tests on numbers, and Rust's `Result`.
--
-- The codec serves every wire object: an object is decoded by `decode`, then by a `Fields` reader that
-- takes the keys in turn and refuses what is left over. Location records, capability tokens and the heads of the
-- log are such objects, signed over their encoding without the signature; a token names its parent by the
-- content address of its encoding. A client of the log folds the path of an inclusion proof to the root that
-- a signed tree head states. A message is two such objects: the payload, signed for its reader, is sealed into
-- the envelope, which is addressed by the content address of the sealed text and signed by a key of its own; the
-- recipient checks the envelope, opens it only then, and may hold the suite of the payload against the ratchet of
-- its sender. A mailbox is what the IMAP, POP3 and JMAP sessions show of the messages
-- received; the POP3 session takes a snapshot of it at the login and removes from it at QUIT. Both sessions
-- get their identity from an `Authenticator`.
--
-- Bounds and fuel. A number of the program is a natural number; where the width matters it is a
-- hypothesis or part of `IsCanonical` (64 bits for integers and lengths). `decode` recurses with a
-- budget of `MAX_NESTING_DEPTH` levels, as the source does. `split_loop` doubles and has as many rounds
-- as the size; `mth`, `audit_path` and `subproof` recurse on parts that are shorter than the whole and have its
-- length as fuel; `skip_levels`, `skip_right` and the folds of a consistency proof halve an index and have
-- it as fuel; `search` halves the messages and has their number as fuel; `md5_loop` takes 64 bytes in each round
-- and has their number as fuel; `decimal_loop` divides by ten and has the number as fuel. The counters of a
-- mailbox wrap, as `u32` and `u64`; the theorems say for how many operations there has to be room.
-- The accumulator of the base64 decoder is a `u32` whose upper bits shift out. Kt/Merkle/Split,
-- Kt/Merkle/Fold, Store/Search and Mail/Text/Laws are about whether this is enough.
--
-- Parameters. `Ed25519` is what the program calls of the crate ed25519_dalek; of a key pair made by it,
-- `IsKeyPair` says that its parts have their lengths and its signatures verify, and of other signatures nothing
-- is assumed. `blake3` is the hash of the crate of that name. What is assumed of it, where a theorem
-- says so, is that its digests have 32 bytes; that it is injective is never assumed: where
-- it would be needed, the two inputs are exhibited. `Authenticator` and `PayloadSeal` are the program's traits of these
-- names, `MlDsa65` is what it calls of the crate ml_dsa.
--
-- Not modelled: serde, the cryptography of the libraries, of mote.rs the manifests of files, the blinded tags
-- and the sealing with HPKE and X-Wing, the generation of keys, the delivery reports and the drafts of smtp.rs, the MIME
-- parser but for `body_offset`, IMAP but for the sequence sets, and the other modules of kotva-core and kotva-mail.
--
-- Where the code and its documents differ on what is modelled, the model follows the code. A token ends at `exp`,
-- where 18-wire-format.md (18.7.3) lets it be used; a delegated ability may be below the parent's, where that asks
-- for the same; a caveat is kept with its value, where that lets it be tightened or left out; windows nest; a
-- revoked ancestor has to be looked for token by token. A SASL credential may have any authorization identity,
-- which the comment in auth.rs excludes, and no session looks at it. Content is inline up to 64 KiB, where
-- 18.3.7 has 48; a contract may have terms that its class does not ask for, and a pinned one must have its term.
pub mod Prelude
pub mod Result
pub mod Cbor
pub mod Id
pub mod Keys
pub mod Suite
pub mod Kt
pub mod Store
pub mod Policy
pub mod Capability
pub mod Mail
pub mod Pq
pub mod Mote
pub mod Location
