-- ===== src/Location.antt =====
-- crates/kotva-core/src/location.rs: signed location records and the tracker against their rollback. A
-- string is its bytes.
mod Laws
mod Tests
use dmtap.Prelude.{
  ℕ, ◌+◌, ◌-◌, ◌*◌, ◌^◌, Bool, true, false, ◌||◌, Bytes, List, [], ◌∷◌, Option, none, some, max,
  ltb, leb, ◌==◌, if◌then◌else◌, lookup, insert,
}
use dmtap.Result
use dmtap.Result.{Result, ok, err}
use dmtap.Id.{ContentId, of}
use dmtap.Keys.{Ed25519, IdentityError, IdentityKey, sign_domain, verify_domain}
use dmtap.Cbor.Value.{
  Cv, Items, Pairs, int_keys, u64, bytes, text, array, map, no_items, item, no_pairs, pair,
  CborError,
}
use dmtap.Cbor.Encode.{encode}
use dmtap.Cbor.Reader.{
  Step, collect, items_of, optional, optional_pair, required, done, decode_object, as_u8, as_u64,
  as_bytes, as_text, as_array, ◌>>=◌,
}

abbrev pub substrate_libp2p : ℕ
substrate_libp2p = 1

abbrev pub default_ttl_secs : ℕ
default_ttl_secs = 2 * 60 * 60

abbrev pub default_republish_secs : ℕ
default_republish_secs = 45 * 60

-- b"DMTAP-v0/location-record\x00"
abbrev pub location_record_ds : Bytes
location_record_ds =
    68 ∷ 77 ∷ 84 ∷ 65 ∷ 80 ∷ 45 ∷ 118 ∷ 48 ∷ 47 ∷ 108 ∷ 111 ∷ 99 ∷ 97 ∷ 116 ∷ 105 ∷ 111 ∷ 110 ∷ 45
    ∷ 114 ∷ 101 ∷ 99 ∷ 111 ∷ 114 ∷ 100 ∷ 0 ∷ []

pub record LocationRecord : Type 0 where
  pub ik : Bytes
  pub peer_id : Bytes
  pub addrs : List Bytes
  pub seq : ℕ
  pub ttl : ℕ
  pub ts : ℕ
  pub sig : Bytes
  pub substrate : Option ℕ

unfoldable pub substrate_or : Option ℕ → ℕ
substrate_or none = substrate_libp2p
substrate_or (some s) = s

unfoldable pub effective_substrate : LocationRecord → ℕ
effective_substrate r = substrate_or r.substrate

unfoldable pub sig_pair : LocationRecord → Bool → Pairs int_keys → Pairs int_keys
sig_pair r true tail = pair 7 (bytes r.sig) tail
sig_pair r false tail = tail

unfoldable pub record_pairs : LocationRecord → Bool → Pairs int_keys
unfolding items_of sig_pair optional_pair
record_pairs r include_sig = pair 1 (bytes r.ik) (
    pair 2 (bytes r.peer_id) (
      pair 3 (array (items_of text r.addrs)) (
        pair 4 (u64 r.seq) (
          pair 5 (u64 r.ttl) (
            pair 6 (u64 r.ts)
              (sig_pair r include_sig (optional_pair 8 u64 r.substrate no_pairs)))))))

unfoldable pub record_det_cbor : LocationRecord → Bytes
record_det_cbor r = encode (map (record_pairs r true))

unfoldable pub record_signing_body : LocationRecord → Bytes
record_signing_body r = encode (map (record_pairs r false))

unfoldable pub issue : IdentityKey → Bytes → List Bytes → ℕ → ℕ → ℕ → Option ℕ → LocationRecord
issue ik peer_id addrs seq ttl ts substrate =
    let r : LocationRecord = record {
      ik = ik.public;
      peer_id = peer_id;
      addrs = addrs;
      seq = seq;
      ttl = ttl;
      ts = ts;
      sig = [];
      substrate = substrate;
    } in
    record r { sig = sign_domain ik location_record_ds (record_signing_body r) }

unfoldable pub texts_from_cv : Cv → Result CborError (List Bytes)
unfolding collect
texts_from_cv cv = Result.◌>>=◌ (as_array cv) (collect as_text)

unfoldable pub record_steps : Step LocationRecord
record_steps = do
  ik ← required as_bytes 1
  peer_id ← required as_bytes 2
  addrs ← required texts_from_cv 3
  seq ← required as_u64 4
  ttl ← required as_u64 5
  ts ← required as_u64 6
  sig ← required as_bytes 7
  substrate ← optional as_u8 8
  done (record {
    ik = ik;
    peer_id = peer_id;
    addrs = addrs;
    seq = seq;
    ttl = ttl;
    ts = ts;
    sig = sig;
    substrate = substrate;
  })

unfoldable pub record_from_det_cbor : Bytes → Result CborError LocationRecord
record_from_det_cbor bs = decode_object record_steps bs

pub data LocationError : Type 0 where
  sig_invalid stale expired unreachable : LocationError

unfoldable pub code : LocationError → ℕ
code sig_invalid = 0x0301
code stale = 0x0302
code expired = 0x0303
code unreachable = 0x0303

unfoldable pub retryable : LocationError → Bool
retryable expired = true
retryable unreachable = true
retryable _ = false

-- `u64::saturating_add` and `u64::saturating_mul`
unfoldable pub saturate : ℕ → ℕ
saturate n = if ltb n (2 ^ 64) then n else 2 ^ 64 - 1

unfoldable pub expires_at : LocationRecord → ℕ
expires_at r = saturate (r.ts + saturate (r.ttl * 1_000))

unfoldable pub check_fresh : LocationRecord → ℕ → ℕ → Result LocationError (Unit {0})
check_fresh r now skew_ms =
    if ltb (saturate (now + skew_ms)) r.ts
    then err expired
    else if leb (expires_at r) now
    then err expired
    else ok tt

unfoldable pub needs_republish : LocationRecord → ℕ → ℕ → Bool
needs_republish r now republish_secs = leb (saturate (r.ts + saturate (republish_secs * 1_000))) now

unfoldable pub supports : List ℕ → ℕ → Bool
supports [] s = false
supports (t ∷ ts) s = t == s || supports ts s

-- The highest `seq` accepted, for each identity key.
pub record LocationTracker : Type 0 where
  pub seen : List (Bytes × ℕ)

abbrev pub new_tracker : LocationTracker
new_tracker = record { seen = [] }

unfoldable pub highest_seq : LocationTracker → Bytes → Option ℕ
highest_seq t ik = lookup ik t.seen

-- `entry(ik).or_insert(seq)`, then the greater of the two.
abbrev pub mark_of : Option ℕ → ℕ → ℕ
mark_of none seq = seq
mark_of (some prev) seq = max prev seq

unfoldable pub add_marks : LocationTracker → List (Bytes × ℕ) → LocationTracker
add_marks t [] = t
add_marks t ((ik, seq) ∷ marks) =
    add_marks (record { seen = insert ik (mark_of (lookup ik t.seen) seq) t.seen }) marks

unfoldable pub from_high_water_marks : List (Bytes × ℕ) → LocationTracker
from_high_water_marks marks = add_marks new_tracker marks

unfoldable pub high_water_marks : LocationTracker → List (Bytes × ℕ)
high_water_marks t = t.seen

unfoldable pub is_stale : Option ℕ → ℕ → Bool
is_stale none seq = false
is_stale (some prev) seq = leb seq prev

unfoldable pub accept :
    LocationTracker → LocationRecord → Result LocationError (Unit {0}) × LocationTracker
accept t r =
    if is_stale (lookup r.ik t.seen) r.seq
    then (err stale, t)
    else (ok tt, record { seen = insert r.ik r.seq t.seen })

-- The key under which the record is stored, for the hash `blake3`.
unfoldable pub dht_key : (Bytes → Bytes) → Bytes → Bytes
dht_key blake3 ik = (of blake3 ik).bytes

module _ (ed : Ed25519) where
  unfoldable pub verify : LocationRecord → Result IdentityError (Unit {0})
  verify r = verify_domain ed r.ik location_record_ds (record_signing_body r) r.sig

  -- `self.verify().map_err(|_| LocationError::SigInvalid)`
  unfoldable pub check_sig : LocationRecord → Result LocationError (Unit {0})
  check_sig r = Result.map_err (λ _. sig_invalid) (verify r)

  unfoldable pub validate : LocationRecord → ℕ → ℕ → List ℕ → Result LocationError (Unit {0})
  validate r now skew_ms supported = Result.◌>>◌ (check_sig r) (
      Result.◌>>◌ (check_fresh r now skew_ms)
        (if supports supported (effective_substrate r) then ok tt else err unreachable))

  unfoldable pub admit :
      LocationTracker
      → LocationRecord
      → ℕ
      → ℕ
      → List ℕ
      → Result LocationError (List Bytes) × LocationTracker
  admit t r now skew_ms supported = elim (validate r now skew_ms supported) [
    | err e ↦ (err e, t)
    | ok u ↦ (let (verdict, t') = accept t r in (Result.map_ok (λ _. r.addrs) verdict, t'))
  ]
