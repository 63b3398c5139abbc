-- ===== src/Capability.antt =====
-- crates/kotva-core/src/capability.rs: attenuable grants, the walk of a chain of tokens, revocations and
-- announcements. A string is its bytes.
pub mod Wire
mod Covers
mod Narrowing
mod Chain
mod Issue
mod Announce
mod WireLaws
mod Tests
use dmtap.Prelude.{
  ℕ, Bool, true, false, not, ◌||◌, ◌&&◌, Bytes, List, [], ◌∷◌, Option, none, some, ltb, leb, ◌==◌,
  if◌then◌else◌, eq_bytes, lookup, insert,
}
use dmtap.Result.{Result, ok, err, map_err, ensure, ◌>>=◌, ◌>>◌}
use dmtap.Id.{ContentId, of, eq_id}
use dmtap.Keys.{Ed25519, IdentityError, unsupported_suite, IdentityKey, sign_domain, verify_domain}
use dmtap.Suite.{Suite, as_u8 as suite_byte, is_supported}
use dmtap.Cbor.Value.{Cv, Pairs, text_keys, text_map, no_pairs, pair}
use dmtap.Cbor.Equality.{eq_cv}
use dmtap.Capability.Wire.{
  Capability, CapabilityToken, token_det_cbor, token_signing_body, CapabilityRevocation,
  revocation_signing_body, CapabilityAnnouncement, announcement_signing_body,
}

pub data CapabilityError : Type 0 where
  bad_signature attenuation_violation broken_chain window_not_nested : CapabilityError
  untrusted_root not_yet_valid expired revoked announce_rollback : CapabilityError

unfoldable pub code : CapabilityError → ℕ
code revoked = 0x050b
code announce_rollback = 0x030a
code _ = 0x0508

-- `child.strip_prefix(parent)`
unfoldable pub strip_prefix : Bytes → Bytes → Option Bytes
strip_prefix [] child = some child
strip_prefix (p ∷ ps) [] = none
strip_prefix (p ∷ ps) (c ∷ cs) = let rest = strip_prefix ps cs in if p == c then rest else none

-- `rest.starts_with('/')`
unfoldable pub is_subscope : Option Bytes → Bool
is_subscope none = false
is_subscope (some []) = false
is_subscope (some (c ∷ rest)) = c == b'/'

unfoldable pub scope_covers : Bytes → Bytes → Bool
scope_covers parent child = eq_bytes parent child || is_subscope (strip_prefix parent child)

unfoldable pub has_caveat : Pairs text_keys → Bytes → Cv → Bool
has_caveat no_pairs k v = false
has_caveat (pair j w rest) k v = eq_bytes j k && eq_cv w v || has_caveat rest k v

-- `parent_pairs.iter().all(…)`
unfoldable pub all_caveats : Pairs text_keys → Pairs text_keys → Bool
all_caveats no_pairs child = true
all_caveats (pair k v rest) child = has_caveat child k v && all_caveats rest child

unfoldable pub is_empty : Pairs text_keys → Bool
is_empty no_pairs = true
is_empty (pair k v rest) = false

unfoldable pub child_tightened : Pairs text_keys → Option Cv → Bool
child_tightened parent (some (text_map child)) = all_caveats parent child
child_tightened parent (some _) = false
child_tightened parent none = is_empty parent

unfoldable pub caveats_tightened : Option Cv → Option Cv → Bool
caveats_tightened (some (text_map parent)) child = child_tightened parent child
caveats_tightened (some _) child = false
caveats_tightened none child = true

unfoldable pub capability_covers : Capability → Capability → Bool
capability_covers parent child =
    scope_covers parent.resource child.resource
    && (scope_covers parent.ability child.ability && caveats_tightened parent.caveats child.caveats)

-- `parent.caps.iter().any(|p| capability_covers(p, c))`
unfoldable pub covered : List Capability → Capability → Bool
covered [] c = false
covered (p ∷ ps) c = capability_covers p c || covered ps c

unfoldable pub all_covered : List Capability → List Capability → Bool
all_covered parents [] = true
all_covered parents (c ∷ cs) = covered parents c && all_covered parents cs

-- b"DMTAP-v0/cap-token\x00", b"DMTAP-v0/cap-revocation\x00" and b"DMTAP-v0/cap-announce\x00"
abbrev pub dmtap_v0 : Bytes → Bytes
dmtap_v0 rest = 68 ∷ 77 ∷ 84 ∷ 65 ∷ 80 ∷ 45 ∷ 118 ∷ 48 ∷ 47 ∷ 99 ∷ 97 ∷ 112 ∷ 45 ∷ rest

abbrev pub cap_token_ds : Bytes
cap_token_ds = dmtap_v0 (116 ∷ 111 ∷ 107 ∷ 101 ∷ 110 ∷ 0 ∷ [])

abbrev pub cap_revocation_ds : Bytes
cap_revocation_ds = dmtap_v0 (114 ∷ 101 ∷ 118 ∷ 111 ∷ 99 ∷ 97 ∷ 116 ∷ 105 ∷ 111 ∷ 110 ∷ 0 ∷ [])

abbrev pub cap_announce_ds : Bytes
cap_announce_ds = dmtap_v0 (97 ∷ 110 ∷ 110 ∷ 111 ∷ 117 ∷ 110 ∷ 99 ∷ 101 ∷ 0 ∷ [])

unfoldable pub check_suite : Suite → Result IdentityError (Unit {0})
check_suite s = ensure (is_supported s) (unsupported_suite (suite_byte s))

unfoldable pub issue_token :
    IdentityKey → Bytes → List Capability → ℕ → ℕ → Bytes → Option ContentId → CapabilityToken
issue_token iss aud caps nbf exp nonce prnt =
    let t : CapabilityToken = record {
      suite = Suite.classical;
      iss = iss.public;
      aud = aud;
      caps = caps;
      nbf = nbf;
      exp = exp;
      nonce = nonce;
      prnt = prnt;
      sig = [];
    } in
    record t { sig = sign_domain iss cap_token_ds (token_signing_body t) }

unfoldable pub issue_revocation : IdentityKey → ContentId → ℕ → CapabilityRevocation
issue_revocation iss token ts =
    let r : CapabilityRevocation = record {
      suite = Suite.classical;
      iss = iss.public;
      token = token;
      ts = ts;
      sig = [];
    } in
    record r { sig = sign_domain iss cap_revocation_ds (revocation_signing_body r) }

unfoldable pub issue_announcement : IdentityKey → ℕ → List Capability → ℕ → CapabilityAnnouncement
issue_announcement iss caps_version caps ts =
    let a : CapabilityAnnouncement = record {
      suite = Suite.classical;
      iss = iss.public;
      caps_version = caps_version;
      caps = caps;
      ts = ts;
      sig = [];
    } in
    record a { sig = sign_domain iss cap_announce_ds (announcement_signing_body a) }

unfoldable pub root_iss : CapabilityToken → List CapabilityToken → Bytes
root_iss t [] = t.iss
root_iss t (p ∷ chain) = root_iss p chain

-- `self.seen`: the highest `caps_version`, for each key.
pub record CapsVersionTracker : Type 0 where
  pub seen : List (Bytes × ℕ)

abbrev pub new_caps_tracker : CapsVersionTracker
new_caps_tracker = record { seen = [] }

unfoldable pub last_version : CapsVersionTracker → Bytes → Option ℕ
last_version t peer = lookup peer t.seen

unfoldable pub is_rollback : Option ℕ → ℕ → Bool
is_rollback none version = false
is_rollback (some last) version = leb version last

unfoldable pub is_issuer : List Bytes → Bytes → Bool
is_issuer [] iss = false
is_issuer (k ∷ ks) iss = eq_bytes k iss || is_issuer ks iss

unfoldable pub is_revoked : List ContentId → ContentId → Bool
is_revoked [] i = false
is_revoked (r ∷ rs) i = eq_id r i || is_revoked rs i

unfoldable pub check_root : Option ContentId → Result CapabilityError (Unit {0})
check_root none = ok tt
check_root (some p) = err broken_chain

module _ (ed : Ed25519) where
  unfoldable pub verify_token : CapabilityToken → Result IdentityError (Unit {0})
  verify_token t = do
    check_suite t.suite
    verify_domain ed t.iss cap_token_ds (token_signing_body t) t.sig

  -- `.map_err(|_| CapabilityError::BadSignature)`
  unfoldable pub check_token : CapabilityToken → Result CapabilityError (Unit {0})
  check_token t = map_err (λ _. bad_signature) (verify_token t)

  unfoldable pub verify_revocation : CapabilityRevocation → Result IdentityError (Unit {0})
  verify_revocation r = do
    check_suite r.suite
    verify_domain ed r.iss cap_revocation_ds (revocation_signing_body r) r.sig

  unfoldable pub verify_authorized :
      CapabilityRevocation → List Bytes → Result IdentityError (Unit {0})
  verify_authorized r authorized_issuers = do
    verify_revocation r
    ensure (is_issuer authorized_issuers r.iss) IdentityError.bad_signature

  unfoldable pub verify_announcement : CapabilityAnnouncement → Result IdentityError (Unit {0})
  verify_announcement a = do
    check_suite a.suite
    verify_domain ed a.iss cap_announce_ds (announcement_signing_body a) a.sig

  unfoldable pub accept :
      CapsVersionTracker
      → CapabilityAnnouncement
      → Result CapabilityError (Unit {0}) × CapsVersionTracker
  accept t a = elim (verify_announcement a) [
    | err e ↦ (err bad_signature, t)
    | ok u ↦
        if is_rollback (lookup a.iss t.seen) a.caps_version
        then (err announce_rollback, t)
        else (ok tt, record { seen = insert a.iss a.caps_version t.seen })
  ]

module _ (blake3 : Bytes → Bytes) where
  unfoldable pub content_id : CapabilityToken → ContentId
  content_id t = of blake3 (token_det_cbor t)

  unfoldable pub names_parent : Option ContentId → CapabilityToken → Bool
  names_parent none parent = false
  names_parent (some p) parent = eq_id p (content_id parent)

module _ (ed : Ed25519) (blake3 : Bytes → Bytes) where
  -- The body of the loop of `verify_chain`.
  unfoldable pub check_link : CapabilityToken → CapabilityToken → Result CapabilityError (Unit {0})
  check_link child parent = do
    check_token ed parent
    ensure (names_parent blake3 child.prnt parent) broken_chain
    ensure (eq_bytes child.iss parent.aud) broken_chain
    ensure (not (ltb child.nbf parent.nbf || ltb parent.exp child.exp)) window_not_nested
    ensure (all_covered parent.caps child.caps) attenuation_violation

  unfoldable pub check_links :
      CapabilityToken → List CapabilityToken → Result CapabilityError (Unit {0})
  check_links child [] = check_root child.prnt
  check_links child (parent ∷ chain) = do check_link child parent; check_links parent chain

  unfoldable pub verify_chain :
      CapabilityToken → List CapabilityToken → Result CapabilityError (Unit {0})
  verify_chain t chain = do check_token ed t; check_links t chain

  unfoldable pub verify_chain_rooted :
      CapabilityToken → List CapabilityToken → Bytes → Result CapabilityError (Unit {0})
  verify_chain_rooted t chain trusted_root = do
    verify_chain t chain
    ensure (eq_bytes (root_iss t chain) trusted_root) untrusted_root

  unfoldable pub verify_at :
      CapabilityToken → ℕ → List ContentId → Result CapabilityError (Unit {0})
  verify_at t now revocations = do
    check_token ed t
    ensure (not (ltb now t.nbf)) not_yet_valid
    ensure (not (leb t.exp now)) expired
    ensure (not (is_revoked revocations (content_id blake3 t))) revoked
