-- ===== src/Mote/File.antt =====
-- crates/kotva-core/src/mote.rs: delivery tiers, durability, file references, attachments and the inbound spool.
use dmtap.Prelude.{
  ℕ, ◌+◌, ◌-◌, ◌*◌, ◌^◌, Bool, true, false, not, Bytes, List, [], ◌∷◌, Option, none, some, length,
  ltb, leb, ◌==◌, if◌then◌else◌,
}
use dmtap.Result
use dmtap.Result.{Result, ok, err}
use dmtap.Id.{ContentId, of}
use dmtap.Kt.Wire.{id_from_cv}
use dmtap.Cbor.Value.{Cv, Pairs, int_keys, u64, bytes, text, map, no_pairs, pair, CborError}
use dmtap.Cbor.Decode.{decode}
use dmtap.Cbor.Encode.{encode}
use dmtap.Cbor.Reader.{
  Step, required, optional, optional_pair, done, as_u8, as_u32, as_u64, as_bytes, as_text, ◌>>=◌,
}
use dmtap.Mote.Kind.{
  MoteError, file_manifest_invalid, file_retention_expired, file_unavailable, spool_overflow,
  size_tier_violation,
}
use dmtap.Mote.Challenge.{object_from_cv}

pub data FileTier : Type 0 where
  inline_file normal large : FileTier

unfoldable pub file_tier : ℕ → FileTier
file_tier size =
    if leb size (64 * 1024)
    then inline_file
    else if leb size (4 * 1024 * 1024)
    then normal
    else large

abbrev pub inline_tier_max : ℕ
inline_tier_max = 64 * 1024

abbrev pub attached_tier_max : ℕ
attached_tier_max = 25 * 1024 * 1024

pub data DeliveryTier : Type 0 where
  inline attached referenced : DeliveryTier

unfoldable pub classify : ℕ → DeliveryTier
classify size =
    if leb size inline_tier_max
    then inline
    else if leb size attached_tier_max
    then attached
    else referenced

unfoldable pub is_inline : DeliveryTier → Bool
is_inline inline = true
is_inline _ = false

pub data DurabilityClass : Type 0 where
  origin_hold recipient_pinned cluster_replicated pinned : DurabilityClass
  unknown : ℕ → DurabilityClass

unfoldable pub class_from_u8 : ℕ → DurabilityClass
class_from_u8 b =
    if b == 0
    then origin_hold
    else if b == 1
    then recipient_pinned
    else if b == 2
    then cluster_replicated
    else if b == 3
    then pinned
    else unknown b

unfoldable pub class_as_u8 : DurabilityClass → ℕ
class_as_u8 origin_hold = 0
class_as_u8 recipient_pinned = 1
class_as_u8 cluster_replicated = 2
class_as_u8 pinned = 3
class_as_u8 (unknown b) = b

pub record Durability : Type 0 where
  pub class : DurabilityClass
  pub retention : Option ℕ
  pub replicas : Option ℕ
  pub holder_hint : Option Bytes

unfoldable pub durability_pairs : Durability → Pairs int_keys
unfolding optional_pair
durability_pairs d = pair 1 (u64 (class_as_u8 d.class)) (
    optional_pair 2 u64 d.retention
      (optional_pair 3 u64 d.replicas (optional_pair 4 text d.holder_hint no_pairs)))

unfoldable pub durability_cv : Durability → Cv
durability_cv d = map (durability_pairs d)

unfoldable pub durability_det_cbor : Durability → Bytes
durability_det_cbor d = encode (durability_cv d)

unfoldable pub class_from_cv : Cv → Result CborError DurabilityClass
class_from_cv cv = Result.map_ok class_from_u8 (as_u8 cv)

unfoldable pub durability_steps : Step Durability
durability_steps = do
  class ← required class_from_cv 1
  retention ← optional as_u64 2
  replicas ← optional as_u32 3
  holder_hint ← optional as_text 4
  done (record {
    class = class;
    retention = retention;
    replicas = replicas;
    holder_hint = holder_hint;
  })

unfoldable pub durability_from_cv : Cv → Result CborError Durability
durability_from_cv cv = object_from_cv durability_steps cv

unfoldable pub durability_from_det_cbor : Bytes → Result CborError Durability
durability_from_det_cbor bs = Result.◌>>=◌ (decode bs) durability_from_cv

unfoldable pub replicated : Option ℕ → Result MoteError (Unit {0})
replicated none = err file_manifest_invalid
replicated (some n) = if leb 1 n then ok tt else err file_manifest_invalid

unfoldable pub retained : Option ℕ → Result MoteError (Unit {0})
retained none = err file_manifest_invalid
retained (some term) = ok tt

-- `Durability::validate`
unfoldable pub validate_terms : Durability → Result MoteError (Unit {0})
validate_terms d = elim d.class [
  | unknown b ↦ err file_manifest_invalid
  | cluster_replicated ↦ replicated d.replicas
  | pinned ↦ retained d.retention
  | origin_hold ↦ ok tt
  | recipient_pinned ↦ ok tt
]

unfoldable pub has_term : DurabilityClass → Option ℕ → ℕ → Bool
has_term pinned (some term) now = leb term now
has_term _ _ now = false

unfoldable pub check_retention : Durability → ℕ → Result MoteError (Unit {0})
check_retention d now =
    if has_term d.class d.retention now then err file_retention_expired else ok tt

unfoldable pub check_file_available : Bool → Result MoteError (Unit {0})
check_file_available any_holder_reachable =
    if any_holder_reachable then ok tt else err file_unavailable

unfoldable pub chunk_content_id : (Bytes → Bytes) → Bytes → ContentId
chunk_content_id blake3 chunk = of blake3 chunk

pub record ManifestRef : Type 0 where
  pub id : ContentId
  pub size : ℕ
  pub chunks : ℕ
  pub durability : Option Durability

unfoldable pub manifest_ref_pairs : ManifestRef → Pairs int_keys
unfolding optional_pair
manifest_ref_pairs m = pair 1 (bytes m.id.bytes) (
    pair 2 (u64 m.size)
      (pair 3 (u64 m.chunks) (optional_pair 4 durability_cv m.durability no_pairs)))

unfoldable pub manifest_ref_cv : ManifestRef → Cv
manifest_ref_cv m = map (manifest_ref_pairs m)

unfoldable pub manifest_ref_steps : Step ManifestRef
manifest_ref_steps = do
  id ← required id_from_cv 1
  size ← required as_u64 2
  chunks ← required as_u32 3
  durability ← optional durability_from_cv 4
  done (record { id = id; size = size; chunks = chunks; durability = durability })

unfoldable pub manifest_ref_from_cv : Cv → Result CborError ManifestRef
manifest_ref_from_cv cv = object_from_cv manifest_ref_steps cv

unfoldable pub durable : Option Durability → DeliveryTier → Result MoteError (Unit {0})
durable none referenced = err file_manifest_invalid
durable none inline = ok tt
durable none attached = ok tt
durable (some d) tier = validate_terms d

unfoldable pub validate_durability : ManifestRef → Result MoteError (Unit {0})
validate_durability m = durable m.durability (classify m.size)

pub record Attachment : Type 0 where
  pub name : Bytes
  pub mime : Bytes
  pub size : ℕ
  pub inline : Option Bytes
  pub manifest : Option ManifestRef
  pub key : Bytes

unfoldable pub attachment_pairs : Attachment → Pairs int_keys
unfolding optional_pair
attachment_pairs a = pair 1 (text a.name) (
    pair 2 (text a.mime) (
      pair 3 (u64 a.size) (
        optional_pair 4 bytes a.inline
          (optional_pair 5 manifest_ref_cv a.manifest (pair 6 (bytes a.key) no_pairs)))))

unfoldable pub attachment_cv : Attachment → Cv
attachment_cv a = map (attachment_pairs a)

unfoldable pub attachment_steps : Step Attachment
attachment_steps = do
  name ← required as_text 1
  mime ← required as_text 2
  size ← required as_u64 3
  content ← optional as_bytes 4
  manifest ← optional manifest_ref_from_cv 5
  key ← required as_bytes 6
  done (record {
    name = name;
    mime = mime;
    size = size;
    inline = content;
    manifest = manifest;
    key = key;
  })

unfoldable pub attachment_from_cv : Cv → Result CborError Attachment
attachment_from_cv cv = object_from_cv attachment_steps cv

-- The mechanism that an attachment declares, against the tier of its size.
unfoldable pub mechanism_fits : Option Bytes → Option ManifestRef → ℕ → Result MoteError (Unit {0})
mechanism_fits (some content) none size =
    if not (is_inline (classify size))
    then err size_tier_violation
    else if not (length content == size)
    then err size_tier_violation
    else ok tt
mechanism_fits none (some mref) size =
    if is_inline (classify size) then err size_tier_violation else validate_durability mref
mechanism_fits (some content) (some mref) size = err size_tier_violation
mechanism_fits none none size = err size_tier_violation

unfoldable pub check_delivery_tier : Attachment → Result MoteError (Unit {0})
check_delivery_tier a = mechanism_fits a.inline a.manifest a.size

-- The loop over the attachments of a draft.
unfoldable pub check_tiers : List Attachment → Result MoteError (Unit {0})
check_tiers [] = ok tt
check_tiers (a ∷ rest) = Result.◌>>◌ (check_delivery_tier a) (check_tiers rest)

pub record InboundSpool : Type 0 where
  pub used : ℕ
  pub cap : ℕ

unfoldable pub new_spool : ℕ → InboundSpool
new_spool cap = record { used = 0; cap = cap }

unfoldable pub remaining : InboundSpool → ℕ
remaining s = s.cap - s.used

-- `checked_add` on 64 bits
unfoldable pub checked_add : ℕ → ℕ → Option ℕ
checked_add a b = if ltb (a + b) (2 ^ 64) then some (a + b) else none

unfoldable pub admit_total : InboundSpool → Option ℕ → Result MoteError (Unit {0}) × InboundSpool
admit_total s none = (err spool_overflow, s)
admit_total s (some total) =
    if leb total s.cap then (ok tt, record s { used = total }) else (err spool_overflow, s)

unfoldable pub admit_bytes : InboundSpool → ℕ → Result MoteError (Unit {0}) × InboundSpool
admit_bytes s incoming = admit_total s (checked_add s.used incoming)

unfoldable pub spool_admit : ℕ → ℕ → ℕ → Result MoteError (Unit {0})
spool_admit used incoming cap = elim (checked_add used incoming) [
  | some total ↦ if leb total cap then ok tt else err spool_overflow
  | none ↦ err spool_overflow
]
