-- ===== src/Mote/ReadBack.antt =====
-- crates/kotva-core/src/mote.rs: `Payload::from_det_cbor` reads back what `Payload::det_cbor` writes.
use dmtap.Prelude.{
  true, Bool, ℕ, ◌^◌, ◌<◌, ◌≤◌, ◌+◌, ◌≡◌, refl, Bytes, List, [], ◌∷◌, Option, none, some, All,
  arith,
}
use dmtap.Result.{ok}
use dmtap.Cbor.Value.{
  Pairs, int_keys, text_keys, u64, bytes, text, bool, array, map, no_pairs, pair, count_pairs,
}
use dmtap.Cbor.Canonical.{PairsCanonical, height}
use dmtap.Cbor.Decode.{max_nesting_depth}
use dmtap.Cbor.Reader.{
  from_cv, required, req, take, take_pair, take_result, optional_pair, done, deny_unknown, as_u8,
  as_u32, as_u64, as_bytes, as_text, as_bool, as_array, narrow, collect, items_of,
}
use dmtap.Cbor.Consume.{Above-trans, IsIncreasing}
use dmtap.Cbor.Inverse.{collect-items_of}
use dmtap.Cbor.ReadBack.{
  OnSome, take_pair-Above, optional-optional_pair, From, From-optional_pair,
  count_pairs-optional_pair, decode_object-encode,
}
use dmtap.Kt.Wire.{id_from_cv}
use dmtap.Kt.Coercions.{ids_from_cv-array}
use dmtap.Mote.Challenge.{object_from_cv}
use dmtap.Mote.File.{
  DurabilityClass, origin_hold, unknown, class_from_u8, class_as_u8, class_from_cv, Durability,
  durability_pairs, durability_cv, durability_steps, durability_from_cv, ManifestRef,
  manifest_ref_pairs, manifest_ref_cv, manifest_ref_steps, manifest_ref_from_cv, Attachment,
  attachment_pairs, attachment_cv, attachment_steps, attachment_from_cv,
}
use dmtap.Mote.Envelope.{
  Headers, headers_pairs, headers_cv, headers_steps, headers_from_cv, ext_pair, ext_of, take_ext,
  keys_from_cv, Payload, payload_pairs, content_pairs, payload_steps, payload_det_cbor,
  payload_from_det_cbor, attachments_from_cv,
}

-- A byte that is not assigned is kept as it is.
abbrev pub IsClass : DurabilityClass → Type 0
IsClass (unknown b) = (3 < b) × (b < 256)
IsClass _ = Unit {0}

abbrev pub IsU32 : ℕ → Type 0
IsU32 n = n < 2 ^ 32

abbrev pub DurabilityFits : Durability → Type 0
DurabilityFits d = IsClass d.class × OnSome IsU32 d.replicas

abbrev pub ManifestFits : ManifestRef → Type 0
ManifestFits m = IsU32 m.chunks × OnSome DurabilityFits m.durability

abbrev pub AttachmentFits : Attachment → Type 0
AttachmentFits a = OnSome ManifestFits a.manifest

class_from_cv-u64 : (c : DurabilityClass) → IsClass c → class_from_cv (u64 (class_as_u8 c)) ≡ ok c
unfolding class_from_cv class_from_u8 class_as_u8 as_u8 as_u64 narrow
class_from_cv-u64 (unknown b) h = ground arith
class_from_cv-u64 origin_hold h = refl
class_from_cv-u64 _ h = refl

pub as_u32-u64 : (n : ℕ) → n < 2 ^ 32 → as_u32 (u64 n) ≡ ok n
unfolding as_u32 as_u64 narrow
as_u32-u64 n h = ground arith

pub as_u64-u64 : (n : ℕ) → as_u64 (u64 n) ≡ ok n
unfolding as_u64
as_u64-u64 n = refl

pub as_text-text : (b : Bytes) → as_text (text b) ≡ ok b
unfolding as_text
as_text-text b = refl

pub as_bytes-bytes : (b : Bytes) → as_bytes (bytes b) ≡ ok b
unfolding as_bytes
as_bytes-bytes b = refl

pub OnSome-map :
    {A : Type 0} (P Q : A → Type 0) (o : Option A) → ((a : A) → P a → Q a) → OnSome P o → OnSome Q o
OnSome-map P Q none f h = tt
OnSome-map P Q (some a) f h = f a h

pub OnSome-all : {A : Type 0} (P : A → Type 0) (o : Option A) → ((a : A) → P a) → OnSome P o
OnSome-all P none f = tt
OnSome-all P (some a) f = f a

durability_from_cv-durability_cv :
    (d : Durability) → DurabilityFits d → durability_from_cv (durability_cv d) ≡ ok d
unfolding durability_from_cv durability_cv object_from_cv from_cv durability_steps durability_pairs
    required req take take_pair take_result done deny_unknown
durability_from_cv-durability_cv d (class, count) =
    let hint = optional_pair 4 text d.holder_hint no_pairs in
    let from₃ = From-optional_pair text 4 3 d.holder_hint no_pairs (omega arith) (tt, tt) in
    let from₂ = From-optional_pair u64 3 2 d.replicas hint (omega arith) from₃ in
    rw
      (
        class_from_cv-u64 d.class class,
        optional-optional_pair u64 2 as_u64 d.retention (optional_pair 3 u64 d.replicas hint) from₂
            (OnSome-all _ d.retention as_u64-u64),
        optional-optional_pair u64 3 as_u32 d.replicas hint from₃
            (OnSome-map IsU32 _ d.replicas as_u32-u64 count),
        optional-optional_pair text 4 as_text d.holder_hint no_pairs (tt, tt)
            (OnSome-all _ d.holder_hint as_text-text),
      )
      refl

manifest_ref_from_cv-manifest_ref_cv :
    (m : ManifestRef) → ManifestFits m → manifest_ref_from_cv (manifest_ref_cv m) ≡ ok m
unfolding manifest_ref_from_cv manifest_ref_cv object_from_cv from_cv manifest_ref_steps
    manifest_ref_pairs required req take take_pair take_result done deny_unknown as_u64 id_from_cv
    as_bytes
manifest_ref_from_cv-manifest_ref_cv m (chunks, durability) =
    rw
      (
        as_u32-u64 m.chunks chunks,
        optional-optional_pair durability_cv 4 durability_from_cv m.durability no_pairs (tt, tt)
            (OnSome-map DurabilityFits _ m.durability durability_from_cv-durability_cv durability),
      )
      refl

attachment_from_cv-attachment_cv :
    (a : Attachment) → AttachmentFits a → attachment_from_cv (attachment_cv a) ≡ ok a
unfolding attachment_from_cv attachment_cv object_from_cv from_cv attachment_steps attachment_pairs
    required req take take_pair take_result done deny_unknown as_u64 as_text as_bytes
attachment_from_cv-attachment_cv a manifest =
    let end : Pairs int_keys = pair 6 (bytes a.key) no_pairs in
    let from₅ : From 5 end = (omega arith, (tt, tt)) in
    let from₄ = From-optional_pair manifest_ref_cv 5 4 a.manifest end (omega arith) from₅ in
    rw
      (
        optional-optional_pair bytes 4 as_bytes a.inline
            (optional_pair 5 manifest_ref_cv a.manifest end) from₄
            (OnSome-all _ a.inline as_bytes-bytes),
        optional-optional_pair manifest_ref_cv 5 manifest_ref_from_cv a.manifest end from₅
            (OnSome-map ManifestFits _ a.manifest manifest_ref_from_cv-manifest_ref_cv manifest),
      )
      refl

as_bool-bool : (b : Bool) → as_bool (bool b) ≡ ok b
unfolding as_bool
as_bool-bool b = refl

keys_from_cv-array : (ks : List Bytes) → keys_from_cv (array (items_of bytes ks)) ≡ ok ks
unfolding keys_from_cv as_array
keys_from_cv-array ks = collect-items_of as_bytes bytes ks as_bytes-bytes

From-ext_pair :
    (j : ℕ) (m : Pairs text_keys) (tail : Pairs int_keys)
    → j < 5
    → From 5 tail
    → From j (ext_pair m tail)
unfolding ext_pair
From-ext_pair j no_pairs tail lt (above, inc) = (Above-trans j 5 tail lt above, inc)
From-ext_pair j (pair k v m) tail lt from = (lt, from)

take_ext-ext_pair :
    (m : Pairs text_keys) (tail : Pairs int_keys)
    → From 5 tail
    → take_ext (record { map = ext_pair m tail }) ≡ ok (m, record { map = tail })
unfolding take_ext ext_pair take take_result ext_of
take_ext-ext_pair no_pairs tail (above, inc) =
    rw (take_pair-Above 5 tail above inc, take_result) refl
take_ext-ext_pair (pair k v m) tail from = unfold take_pair in refl

headers_from_cv-headers_cv : (h : Headers) → headers_from_cv (headers_cv h) ≡ ok h
unfolding headers_from_cv headers_cv object_from_cv from_cv headers_steps headers_pairs required req
    take take_pair take_result done deny_unknown
headers_from_cv-headers_cv h =
    let from₅ = From-optional_pair bool 6 5 h.sensitive no_pairs (omega arith) (tt, tt) in
    let last = optional_pair 6 bool h.sensitive no_pairs in
    let from₄ = From-ext_pair 4 h.ext last (omega arith) from₅ in
    let rest = pair 4 (array (items_of bytes h.cc)) (ext_pair h.ext last) in
    let from₃ : From 3 rest = (omega arith, from₄) in
    let from₂ = From-optional_pair text 3 2 h.mime rest (omega arith) from₃ in
    let from₁ =
      From-optional_pair text 2 1 h.subject (optional_pair 3 text h.mime rest) (omega arith)
        from₂ in
    rw
      (
        optional-optional_pair bytes 1 as_bytes h.thread
            (optional_pair 2 text h.subject (optional_pair 3 text h.mime rest)) from₁
            (OnSome-all _ h.thread as_bytes-bytes),
        optional-optional_pair text 2 as_text h.subject (optional_pair 3 text h.mime rest) from₂
            (OnSome-all _ h.subject as_text-text),
        optional-optional_pair text 3 as_text h.mime rest from₃ (OnSome-all _ h.mime as_text-text),
        keys_from_cv-array h.cc,
        take_ext-ext_pair h.ext last from₅,
        optional-optional_pair bool 6 as_bool h.sensitive no_pairs (tt, tt)
            (OnSome-all _ h.sensitive as_bool-bool),
      )
      refl

collect-attachments :
    (l : List Attachment)
    → All AttachmentFits l
    → collect attachment_from_cv (items_of attachment_cv l) ≡ ok l
unfolding collect items_of
collect-attachments [] fits = refl
collect-attachments (a ∷ l) (fits, rest) =
    rw (attachment_from_cv-attachment_cv a fits, collect-attachments l rest)

attachments_from_cv-array :
    (l : List Attachment)
    → All AttachmentFits l
    → attachments_from_cv (array (items_of attachment_cv l)) ≡ ok l
unfolding attachments_from_cv as_array
attachments_from_cv-array l fits = collect-attachments l fits

payload_steps-payload_pairs :
    (p : Payload)
    → All AttachmentFits p.attach
    → payload_steps (record { map = payload_pairs p true }) ≡ ok (p, record { map = no_pairs })
unfolding payload_steps payload_pairs content_pairs required req take take_pair take_result done
    deny_unknown as_bytes
payload_steps-payload_pairs p fits =
    rw
      (
        headers_from_cv-headers_cv p.headers,
        ids_from_cv-array p.refs,
        attachments_from_cv-array p.attach fits,
        optional-optional_pair u64 7 as_u64 p.expires no_pairs (tt, tt)
            (OnSome-all _ p.expires as_u64-u64),
      )
      refl

IsIncreasing-payload_pairs : (p : Payload) → IsIncreasing (payload_pairs p true)
unfolding payload_pairs content_pairs
IsIncreasing-payload_pairs p =
    let from₆ = From-optional_pair u64 7 6 p.expires no_pairs (omega arith) (tt, tt) in
    (omega arith, (omega arith, (omega arith, (omega arith, (omega arith, from₆)))))

count_pairs-payload_pairs : (p : Payload) → count_pairs (payload_pairs p true) < 2 ^ 64
unfolding payload_pairs content_pairs count_pairs
count_pairs-payload_pairs p = omega (arith, count_pairs-optional_pair u64 7 p.expires no_pairs)

-- The payload fits the wire: its lengths and numbers and those of its attachments, and the nesting of its extensions.
pub record PayloadFits (p : Payload) : Type 0 where
  pub attachments : All AttachmentFits p.attach
  pub canonical : PairsCanonical (payload_pairs p true)
  pub shallow : height (map (payload_pairs p true)) ≤ max_nesting_depth + 1

-- A payload that fits the wire is read back from its encoding.
pub payload_from_det_cbor-payload_det_cbor :
    (p : Payload) → PayloadFits p → payload_from_det_cbor (payload_det_cbor p) ≡ ok p
unfolding payload_from_det_cbor payload_det_cbor
payload_from_det_cbor-payload_det_cbor p fits =
    decode_object-encode payload_steps (payload_pairs p true) p (record { map = no_pairs })
      (payload_steps-payload_pairs p fits.attachments) (IsIncreasing-payload_pairs p) fits.canonical
      (count_pairs-payload_pairs p) fits.shallow
