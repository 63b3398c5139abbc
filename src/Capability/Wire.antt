-- ===== src/Capability/Wire.antt =====
-- crates/kotva-core/src/capability.rs, the wire objects.
use dmtap.Prelude.{ℕ, Bool, true, false, Bytes, List, [], ◌∷◌, Option, none, some}
use dmtap.Result
use dmtap.Result.{Result, ok, err}
use dmtap.Id.{ContentId}
use dmtap.Suite.{Suite, as_u8 as suite_byte}
use dmtap.Kt.Wire.{suite_from_cv, id_from_cv}
use dmtap.Cbor.Value.{
  Cv, Pairs, int_keys, u64, bytes, text, array, map, text_map, no_pairs, pair, CborError,
  type_mismatch,
}
use dmtap.Cbor.Encode.{encode}
use dmtap.Cbor.Reader.{
  Step, from_cv, take, required, done, decode_object, optional, optional_pair, collect, items_of,
  as_u64, as_bytes, as_text, as_array, ◌>>=◌,
}

pub record Capability : Type 0 where
  pub resource : Bytes
  pub ability : Bytes
  pub caveats : Option Cv

unfoldable pub cap_pairs : Capability → Pairs int_keys
unfolding optional_pair
cap_pairs c =
    pair 1 (text c.resource) (pair 2 (text c.ability) (optional_pair 3 (λ v. v) c.caveats no_pairs))

unfoldable pub cap_cv : Capability → Cv
cap_cv c = map (cap_pairs c)

unfoldable pub caveats_of : Option Cv → Result CborError (Option Cv)
caveats_of none = ok none
caveats_of (some (text_map m)) = ok (some (text_map m))
caveats_of (some (map no_pairs)) = ok (some (text_map no_pairs))
caveats_of (some _) = err type_mismatch

unfoldable pub take_caveats : Step (Option Cv)
unfolding take caveats_of
take_caveats f = let (found, f') = take f 3 in Result.map_ok (λ c. (c, f')) (caveats_of found)

unfoldable pub cap_steps : Step Capability
cap_steps = do
  resource ← required as_text 1
  ability ← required as_text 2
  caveats ← take_caveats
  done (record { resource = resource; ability = ability; caveats = caveats })

unfoldable pub cap_from_cv : Cv → Result CborError Capability
cap_from_cv cv = Result.◌>>=◌ (from_cv cv) λ f. Result.map_ok (λ (c, left). c) (cap_steps f)

unfoldable pub caps_from_cv : Cv → Result CborError (List Capability)
caps_from_cv cv = Result.◌>>=◌ (as_array cv) (collect cap_from_cv)

unfoldable pub not_empty : List Capability → Result CborError (List Capability)
not_empty [] = err type_mismatch
not_empty (c ∷ cs) = ok (c ∷ cs)

-- The caps of a token: at least one.
unfoldable pub some_caps_from_cv : Cv → Result CborError (List Capability)
some_caps_from_cv cv = Result.◌>>=◌ (caps_from_cv cv) not_empty

unfoldable pub id_cv : ContentId → Cv
id_cv i = bytes i.bytes

unfoldable pub signed : Bool → ℕ → Bytes → Pairs int_keys
signed true k sig = pair k (bytes sig) no_pairs
signed false k sig = no_pairs

pub record CapabilityToken : Type 0 where
  pub suite : Suite
  pub iss : Bytes
  pub aud : Bytes
  pub caps : List Capability
  pub nbf : ℕ
  pub exp : ℕ
  pub nonce : Bytes
  pub prnt : Option ContentId
  pub sig : Bytes

unfoldable pub token_pairs : CapabilityToken → Bool → Pairs int_keys
unfolding signed optional_pair
token_pairs t include_sig = pair 1 (u64 (suite_byte t.suite)) (
    pair 2 (bytes t.iss) (
      pair 3 (bytes t.aud) (
        pair 4 (array (items_of cap_cv t.caps)) (
          pair 5 (u64 t.nbf) (
            pair 6 (u64 t.exp) (
              pair 7 (bytes t.nonce)
                (optional_pair 8 id_cv t.prnt (signed include_sig 9 t.sig))))))))

unfoldable pub token_det_cbor : CapabilityToken → Bytes
token_det_cbor t = encode (map (token_pairs t true))

unfoldable pub token_signing_body : CapabilityToken → Bytes
token_signing_body t = encode (map (token_pairs t false))

unfoldable pub token_steps : Step CapabilityToken
token_steps = do
  suite ← required suite_from_cv 1
  iss ← required as_bytes 2
  aud ← required as_bytes 3
  caps ← required some_caps_from_cv 4
  nbf ← required as_u64 5
  exp ← required as_u64 6
  nonce ← required as_bytes 7
  prnt ← optional id_from_cv 8
  sig ← required as_bytes 9
  done (record {
    suite = suite;
    iss = iss;
    aud = aud;
    caps = caps;
    nbf = nbf;
    exp = exp;
    nonce = nonce;
    prnt = prnt;
    sig = sig;
  })

unfoldable pub token_from_det_cbor : Bytes → Result CborError CapabilityToken
token_from_det_cbor bs = decode_object token_steps bs

pub record CapabilityRevocation : Type 0 where
  pub suite : Suite
  pub iss : Bytes
  pub token : ContentId
  pub ts : ℕ
  pub sig : Bytes

unfoldable pub revocation_pairs : CapabilityRevocation → Bool → Pairs int_keys
unfolding signed
revocation_pairs r include_sig = pair 1 (u64 (suite_byte r.suite)) (
    pair 2 (bytes r.iss)
      (pair 3 (bytes r.token.bytes) (pair 4 (u64 r.ts) (signed include_sig 5 r.sig))))

unfoldable pub revocation_det_cbor : CapabilityRevocation → Bytes
revocation_det_cbor r = encode (map (revocation_pairs r true))

unfoldable pub revocation_signing_body : CapabilityRevocation → Bytes
revocation_signing_body r = encode (map (revocation_pairs r false))

unfoldable pub revocation_steps : Step CapabilityRevocation
revocation_steps = do
  suite ← required suite_from_cv 1
  iss ← required as_bytes 2
  token ← required id_from_cv 3
  ts ← required as_u64 4
  sig ← required as_bytes 5
  done (record { suite = suite; iss = iss; token = token; ts = ts; sig = sig })

unfoldable pub revocation_from_det_cbor : Bytes → Result CborError CapabilityRevocation
revocation_from_det_cbor bs = decode_object revocation_steps bs

pub record CapabilityAnnouncement : Type 0 where
  pub suite : Suite
  pub iss : Bytes
  pub caps_version : ℕ
  pub caps : List Capability
  pub ts : ℕ
  pub sig : Bytes

unfoldable pub announcement_pairs : CapabilityAnnouncement → Bool → Pairs int_keys
unfolding signed
announcement_pairs a include_sig = pair 1 (u64 (suite_byte a.suite)) (
    pair 2 (bytes a.iss) (
      pair 3 (u64 a.caps_version)
        (pair 4 (array (items_of cap_cv a.caps)) (pair 5 (u64 a.ts) (signed include_sig 6 a.sig)))))

unfoldable pub announcement_det_cbor : CapabilityAnnouncement → Bytes
announcement_det_cbor a = encode (map (announcement_pairs a true))

unfoldable pub announcement_signing_body : CapabilityAnnouncement → Bytes
announcement_signing_body a = encode (map (announcement_pairs a false))

unfoldable pub announcement_steps : Step CapabilityAnnouncement
announcement_steps = do
  suite ← required suite_from_cv 1
  iss ← required as_bytes 2
  caps_version ← required as_u64 3
  caps ← required caps_from_cv 4
  ts ← required as_u64 5
  sig ← required as_bytes 6
  done (record {
    suite = suite;
    iss = iss;
    caps_version = caps_version;
    caps = caps;
    ts = ts;
    sig = sig;
  })

unfoldable pub announcement_from_det_cbor : Bytes → Result CborError CapabilityAnnouncement
announcement_from_det_cbor bs = decode_object announcement_steps bs
