-- ===== src/Capability/Tests.antt =====
-- Runs of crates/kotva-core/src/capability.rs. `toy` takes a signature to be valid if it begins with the
-- key; `toy_hash` keeps the length.
use dmtap.Prelude.{
  ℕ, ◌≡◌, ◌<◌, ◌≤◌, ◌↔◌, refl, inl, inr, arith, true, false, Bytes, [], ◌∷◌, none, some, replicate,
  take, length, eq_bytes, lookup, to_be_bytes,
}
use dmtap.Result.{ok, err}
use dmtap.Id.{of, eq_id}
use dmtap.Keys.{Ed25519, IdentityKey, IsKeyPair, verify_domain, verifying_key, signature}
use dmtap.Suite.{Suite, is_supported, as_u8}
use dmtap.Cbor.Encode.{
  encode, enc_map, write_head, write_entries, sort_entries, insert_entry, cmp_bytes, key_bytes,
}
use dmtap.Cbor.Value.{count_items, text_map, pair, u64, no_pairs}
use dmtap.Cbor.Equality.{eq_cv}
use dmtap.Cbor.Reader.{items_of}
use dmtap.Capability.{
  CapabilityError, issue_token, strip_prefix, is_subscope, scope_covers, caveats_tightened,
  child_tightened, all_caveats, has_caveat, capability_covers, covered, all_covered, check_suite,
  root_iss, new_caps_tracker, is_rollback, verify_token, check_token, verify_announcement, accept,
  content_id, check_link, check_root, check_links, verify_chain, verify_chain_rooted, is_revoked,
  verify_at, names_parent, attenuation_violation, expired,
}
use dmtap.Capability.Wire.{
  Capability, CapabilityToken, CapabilityRevocation, CapabilityAnnouncement, token_det_cbor,
  token_pairs, cap_cv, cap_pairs,
}
use dmtap.Capability.Covers.{IsUnder}
use dmtap.Capability.Chain.{
  Delegates, IsWithin, last_token, verify_chain-eq-ok_iff, verify_chain_rooted-IsWithin,
  verify_at-eq-ok_iff,
}
use dmtap.Capability.Issue.{verify_chain-issue_token}
use dmtap.Capability.Announce.{after, accept_no_rollback}

unfoldable toy : Ed25519
toy = record { valid_key = λ key. true; verify_strict = λ key msg sig. eq_bytes key (take 32 sig) }

unfoldable toy_hash : Bytes → Bytes
toy_hash bs = to_be_bytes 32 (length bs)

abbrev key : ℕ → Bytes
key n = replicate 32 n

abbrev grant : Bytes → Capability
grant resource = record { resource = resource; ability = 97 ∷ []; caveats = none }

abbrev parent : CapabilityToken
parent = record {
  suite = Suite.classical;
  iss = key 1;
  aud = key 2;
  caps = grant (104 ∷ []) ∷ [];
  nbf = 10;
  exp = 90;
  nonce = 5 ∷ [];
  prnt = none;
  sig = replicate 64 1;
}

abbrev child : Bytes → CapabilityToken
child resource = record {
  suite = Suite.classical;
  iss = key 2;
  aud = key 3;
  caps = grant resource ∷ [];
  nbf = 20;
  exp = 80;
  nonce = 5 ∷ [];
  prnt = some (content_id toy_hash parent);
  sig = replicate 64 2;
}

covers_below_the_slash : scope_covers (104 ∷ []) (104 ∷ 47 ∷ 105 ∷ []) ≡ true
unfolding scope_covers strip_prefix is_subscope eq_bytes
covers_below_the_slash = refl

covers_no_longer_word : scope_covers (104 ∷ []) (104 ∷ 105 ∷ []) ≡ false
unfolding scope_covers strip_prefix is_subscope eq_bytes
covers_no_longer_word = refl

-- "a" covers "a/b".
covers_a_narrower_ability :
    capability_covers (grant (104 ∷ [])) (record (grant (104 ∷ [])) { ability = 97 ∷ 47 ∷ 98 ∷ [] })
    ≡ true
unfolding capability_covers scope_covers strip_prefix is_subscope caveats_tightened eq_bytes
covers_a_narrower_ability = refl

-- A numeric limit, under the key "l".
abbrev limited : ℕ → Capability
limited n = record (grant (104 ∷ [])) {
  caveats = some (text_map (pair (108 ∷ []) (u64 n) no_pairs));
}

covers_the_same_limit : capability_covers (limited 5) (limited 5) ≡ true
unfolding capability_covers scope_covers strip_prefix is_subscope caveats_tightened child_tightened
    all_caveats has_caveat eq_cv eq_bytes
covers_the_same_limit = refl

covers_no_lower_limit : capability_covers (limited 5) (limited 4) ≡ false
unfolding capability_covers scope_covers strip_prefix is_subscope caveats_tightened child_tightened
    all_caveats has_caveat eq_cv eq_bytes
covers_no_lower_limit = refl

roots_the_child :
    verify_chain_rooted toy toy_hash (child (104 ∷ 47 ∷ 105 ∷ [])) (parent ∷ []) (key 1) ≡ ok tt
unfolding verify_chain_rooted verify_chain check_token verify_token check_suite is_supported as_u8
    verify_domain verifying_key signature check_links check_link check_root names_parent eq_id of
    content_id all_covered covered capability_covers scope_covers strip_prefix is_subscope
    caveats_tightened root_iss toy toy_hash eq_bytes to_be_bytes token_det_cbor encode enc_map
    write_head token_pairs write_entries sort_entries insert_entry cmp_bytes key_bytes count_items
    items_of cap_cv cap_pairs
roots_the_child = refl

refuses_a_wider_child :
    verify_chain_rooted toy toy_hash (child (105 ∷ [])) (parent ∷ []) (key 1)
    ≡ err attenuation_violation
unfolding verify_chain_rooted verify_chain check_token verify_token check_suite is_supported as_u8
    verify_domain verifying_key signature check_links check_link check_root names_parent eq_id of
    content_id all_covered covered capability_covers scope_covers strip_prefix is_subscope
    caveats_tightened root_iss toy toy_hash eq_bytes to_be_bytes token_det_cbor encode enc_map
    write_head token_pairs write_entries sort_entries insert_entry cmp_bytes key_bytes count_items
    items_of cap_cv cap_pairs
refuses_a_wider_child = refl

verify_chain-eq-ok_iff_example :
    (verify_chain toy toy_hash (child (104 ∷ 47 ∷ 105 ∷ [])) (parent ∷ []) ≡ ok tt) ↔ (
      (verify_token toy (child (104 ∷ 47 ∷ 105 ∷ [])) ≡ ok tt)
      × Delegates toy toy_hash (child (104 ∷ 47 ∷ 105 ∷ [])) (parent ∷ []))
verify_chain-eq-ok_iff_example =
    verify_chain-eq-ok_iff toy toy_hash (child (104 ∷ 47 ∷ 105 ∷ [])) (parent ∷ [])

verify_chain_rooted-IsWithin_example :
    ((last_token (child (104 ∷ 47 ∷ 105 ∷ [])) (parent ∷ [])).iss ≡ key 1)
    × IsWithin toy toy_hash
        (last_token (child (104 ∷ 47 ∷ 105 ∷ [])) (parent ∷ []))
        (child (104 ∷ 47 ∷ 105 ∷ []))
verify_chain_rooted-IsWithin_example =
    verify_chain_rooted-IsWithin toy toy_hash (child (104 ∷ 47 ∷ 105 ∷ [])) (parent ∷ []) (key 1)
      (tt, tt) roots_the_child

verify_at-eq-ok_iff_example : (verify_at toy toy_hash parent 50 [] ≡ ok tt) ↔ (
    (verify_token toy parent ≡ ok tt)
    × (10 ≤ 50)
    × (50 < 90)
    × (is_revoked [] (content_id toy_hash parent) ≡ false))
verify_at-eq-ok_iff_example = verify_at-eq-ok_iff toy toy_hash parent 50 []

ends_at_exp : verify_at toy toy_hash parent 90 [] ≡ err expired
unfolding verify_at check_token verify_token check_suite is_supported verify_domain verifying_key
    signature toy eq_bytes as_u8
ends_at_exp = refl

abbrev announced : ℕ → CapabilityAnnouncement
announced version = record {
  suite = Suite.classical;
  iss = key 1;
  caps_version = version;
  caps = [];
  ts = 50;
  sig = replicate 64 1;
}

accepts_the_first : (accept toy new_caps_tracker (announced 4)).0 ≡ ok tt
unfolding accept verify_announcement check_suite is_supported as_u8 verify_domain verifying_key
    signature is_rollback lookup toy eq_bytes
accepts_the_first = refl

accept_no_rollback_example :
    (e : CapabilityError) × (accept toy
        (after toy (accept toy new_caps_tracker (announced 4)).1 (announced 7 ∷ []))
        (announced 4)
      ≡ (err e, after toy (accept toy new_caps_tracker (announced 4)).1 (announced 7 ∷ [])))
accept_no_rollback_example =
    accept_no_rollback toy new_caps_tracker (announced 4) (announced 7 ∷ []) (announced 4)
      accepts_the_first refl (omega arith)

abbrev gone : CapabilityRevocation
gone = record {
  suite = Suite.classical;
  iss = 9 ∷ [];
  token = record { bytes = 0x1e ∷ 3 ∷ [] };
  ts = 60;
  sig = 8 ∷ [];
}

-- {1: 1, 2: h'09', 3: h'1e03', 4: 60, 5: h'08'}
abbrev gone_wire : Bytes
gone_wire = 0xa5 ∷ 1 ∷ 1 ∷ 2 ∷ 0x41 ∷ 9 ∷ 3 ∷ 0x42 ∷ 0x1e ∷ 3 ∷ 4 ∷ 0x18 ∷ 60 ∷ 5 ∷ 0x41 ∷ 8 ∷ []

abbrev toy_key : IdentityKey
toy_key = record { public = key 2; sign = λ m. replicate 64 2 }

toy_key-IsKeyPair : IsKeyPair toy toy_key
unfolding toy eq_bytes
toy_key-IsKeyPair = record {
  public_length = refl;
  public_valid = refl;
  sign_length = λ m. refl;
  sign_verifies = λ m. refl;
}

parent_verifies : verify_chain toy toy_hash parent [] ≡ ok tt
unfolding verify_chain check_token verify_token check_suite is_supported as_u8 verify_domain
    verifying_key signature check_links check_root toy eq_bytes
parent_verifies = refl

verify_chain-issue_token_example :
    verify_chain toy toy_hash
      (issue_token toy_key
        (key 3)
        (grant (104 ∷ 47 ∷ 105 ∷ []) ∷ [])
        20
        80
        (5 ∷ [])
        (some (content_id toy_hash parent)))
      (parent ∷ [])
    ≡ ok tt
unfolding IsUnder
verify_chain-issue_token_example =
    verify_chain-issue_token toy toy_hash toy_key parent [] (key 3)
      (grant (104 ∷ 47 ∷ 105 ∷ []) ∷ []) 20 80 (5 ∷ []) toy_key-IsKeyPair parent_verifies refl
      (inl (inr (105 ∷ [], refl), inl refl, tt), tt) (omega arith) (omega arith)
