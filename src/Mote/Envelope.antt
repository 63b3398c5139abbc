-- ===== src/Mote/Envelope.antt =====
-- crates/kotva-core/src/mote.rs: the envelope and the sealed payload, with their codecs.
use dmtap.Prelude.{ℕ, Bool, true, false, Bytes, List, [], Option, none, some}
use dmtap.Result
use dmtap.Result.{Result, ok, err, ok_or}
use dmtap.Id.{ContentId}
use dmtap.Suite.{Suite, as_u8 as suite_byte}
use dmtap.Kt.Wire.{suite_from_cv, id_from_cv, ids_from_cv, id_items}
use dmtap.Cbor.Value.{
  Cv, Pairs, int_keys, text_keys, u64, bytes, text, bool, array, map, text_map, no_pairs, pair,
  CborError, type_mismatch, unknown_discriminant,
}
use dmtap.Cbor.Encode.{encode}
use dmtap.Cbor.Reader.{
  Step, take, required, optional, optional_pair, done, decode_object, collect, items_of, as_u8,
  as_u64, as_bytes, as_text, as_bool, as_array, ◌>>=◌,
}
use dmtap.Mote.Kind.{Kind, from_u8 as kind_from_u8, as_u8 as kind_byte}
use dmtap.Mote.Challenge.{
  ChallengeResponse, challenge_cv, challenge_from_cv, DeliveryTag, tag_cv, tag_from_cv,
  object_from_cv,
}
use dmtap.Mote.File.{Attachment, attachment_cv, attachment_from_cv}

pub record KeyPackageRef : Type 0 where
  pub reference : ContentId
  pub suite : Suite
  pub loc : Option Bytes

unfoldable pub key_package_pairs : KeyPackageRef → Pairs int_keys
unfolding optional_pair
key_package_pairs k =
    pair 1 (bytes k.reference.bytes)
      (pair 2 (u64 (suite_byte k.suite)) (optional_pair 3 text k.loc no_pairs))

unfoldable pub key_package_cv : KeyPackageRef → Cv
key_package_cv k = map (key_package_pairs k)

unfoldable pub key_package_steps : Step KeyPackageRef
key_package_steps = do
  reference ← required id_from_cv 1
  suite ← required suite_from_cv 2
  loc ← optional as_text 3
  done (record { reference = reference; suite = suite; loc = loc })

unfoldable pub key_package_from_cv : Cv → Result CborError KeyPackageRef
key_package_from_cv cv = object_from_cv key_package_steps cv

pub record Envelope : Type 0 where
  pub v : ℕ
  pub suite : Suite
  pub id : ContentId
  pub to : DeliveryTag
  pub epoch : Option Bytes
  pub ts : ℕ
  pub kind : Kind
  pub keypkg : Option KeyPackageRef
  pub challenge : Option ChallengeResponse
  pub ciphertext : Bytes
  pub sender_sig : Option Bytes
  pub sender_eph : Option Bytes

unfoldable pub envelope_pairs : Envelope → Pairs int_keys
unfolding optional_pair
envelope_pairs e = pair 1 (u64 e.v) (
    pair 2 (u64 (suite_byte e.suite)) (
      pair 3 (bytes e.id.bytes) (
        pair 4 (tag_cv e.to) (
          optional_pair 5 bytes e.epoch (
            pair 6 (u64 e.ts) (
              pair 7 (u64 (kind_byte e.kind)) (
                optional_pair 8 key_package_cv e.keypkg (
                  optional_pair 9 challenge_cv e.challenge (
                    pair 10 (bytes e.ciphertext) (
                      optional_pair 11 bytes e.sender_sig
                        (optional_pair 12 bytes e.sender_eph no_pairs)))))))))))

unfoldable pub envelope_det_cbor : Envelope → Bytes
envelope_det_cbor e = encode (map (envelope_pairs e))

unfoldable pub kind_from_cv : Cv → Result CborError Kind
kind_from_cv cv = Result.◌>>=◌ (as_u8 cv) λ b. ok_or (kind_from_u8 b) (unknown_discriminant 0)

unfoldable pub envelope_steps : Step Envelope
envelope_steps = do
  v ← required as_u8 1
  suite ← required suite_from_cv 2
  id ← required id_from_cv 3
  to ← required tag_from_cv 4
  epoch ← optional as_bytes 5
  ts ← required as_u64 6
  kind ← required kind_from_cv 7
  keypkg ← optional key_package_from_cv 8
  challenge ← optional challenge_from_cv 9
  ciphertext ← required as_bytes 10
  sender_sig ← optional as_bytes 11
  sender_eph ← optional as_bytes 12
  done (record {
    v = v;
    suite = suite;
    id = id;
    to = to;
    epoch = epoch;
    ts = ts;
    kind = kind;
    keypkg = keypkg;
    challenge = challenge;
    ciphertext = ciphertext;
    sender_sig = sender_sig;
    sender_eph = sender_eph;
  })

unfoldable pub envelope_from_det_cbor : Bytes → Result CborError Envelope
envelope_from_det_cbor bs = decode_object envelope_steps bs

pub record Headers : Type 0 where
  pub thread : Option Bytes
  pub subject : Option Bytes
  pub mime : Option Bytes
  pub cc : List Bytes
  pub ext : Pairs text_keys
  pub sensitive : Option Bool

-- `if !self.ext.is_empty()`
unfoldable pub ext_pair : Pairs text_keys → Pairs int_keys → Pairs int_keys
ext_pair no_pairs tail = tail
ext_pair (pair k v m) tail = pair 5 (text_map (pair k v m)) tail

unfoldable pub headers_pairs : Headers → Pairs int_keys
unfolding optional_pair ext_pair
headers_pairs h = optional_pair 1 bytes h.thread (
    optional_pair 2 text h.subject (
      optional_pair 3 text h.mime (
        pair 4 (array (items_of bytes h.cc))
          (ext_pair h.ext (optional_pair 6 bool h.sensitive no_pairs)))))

unfoldable pub headers_cv : Headers → Cv
headers_cv h = map (headers_pairs h)

unfoldable pub ext_of : Option Cv → Result CborError (Pairs text_keys)
ext_of none = ok no_pairs
ext_of (some (text_map m)) = ok m
ext_of (some (map no_pairs)) = ok no_pairs
ext_of (some _) = err type_mismatch

unfoldable pub take_ext : Step (Pairs text_keys)
unfolding take ext_of
take_ext f = let (found, f') = take f 5 in Result.map_ok (λ m. (m, f')) (ext_of found)

unfoldable pub keys_from_cv : Cv → Result CborError (List Bytes)
keys_from_cv cv = Result.◌>>=◌ (as_array cv) (collect as_bytes)

unfoldable pub headers_steps : Step Headers
headers_steps = do
  thread ← optional as_bytes 1
  subject ← optional as_text 2
  mime ← optional as_text 3
  cc ← required keys_from_cv 4
  ext ← take_ext
  sensitive ← optional as_bool 6
  done (record {
    thread = thread;
    subject = subject;
    mime = mime;
    cc = cc;
    ext = ext;
    sensitive = sensitive;
  })

unfoldable pub headers_from_cv : Cv → Result CborError Headers
headers_from_cv cv = object_from_cv headers_steps cv

-- `Headers::default()`
abbrev pub default_headers : Headers
default_headers = record {
  thread = none;
  subject = none;
  mime = none;
  cc = [];
  ext = no_pairs;
  sensitive = none;
}

pub record Payload : Type 0 where
  pub from : Bytes
  pub sig : Bytes
  pub headers : Headers
  pub body : Bytes
  pub refs : List ContentId
  pub attach : List Attachment
  pub expires : Option ℕ

-- The pairs behind the signature.
unfoldable pub content_pairs : Payload → Pairs int_keys
unfolding optional_pair
content_pairs p = pair 3 (headers_cv p.headers) (
    pair 4 (bytes p.body) (
      pair 5 (array (id_items p.refs)) (
        pair 6 (array (items_of attachment_cv p.attach)) (optional_pair 7 u64 p.expires no_pairs))))

unfoldable pub payload_pairs : Payload → Bool → Pairs int_keys
unfolding content_pairs
payload_pairs p true = pair 1 (bytes p.from) (pair 2 (bytes p.sig) (content_pairs p))
payload_pairs p false = pair 1 (bytes p.from) (content_pairs p)

unfoldable pub payload_det_cbor : Payload → Bytes
payload_det_cbor p = encode (map (payload_pairs p true))

unfoldable pub payload_signing_body : Payload → Bytes
payload_signing_body p = encode (map (payload_pairs p false))

unfoldable pub attachments_from_cv : Cv → Result CborError (List Attachment)
attachments_from_cv cv = Result.◌>>=◌ (as_array cv) (collect attachment_from_cv)

unfoldable pub payload_steps : Step Payload
payload_steps = do
  from ← required as_bytes 1
  sig ← required as_bytes 2
  headers ← required headers_from_cv 3
  body ← required as_bytes 4
  refs ← required ids_from_cv 5
  attach ← required attachments_from_cv 6
  expires ← optional as_u64 7
  done (record {
    from = from;
    sig = sig;
    headers = headers;
    body = body;
    refs = refs;
    attach = attach;
    expires = expires;
  })

unfoldable pub payload_from_det_cbor : Bytes → Result CborError Payload
payload_from_det_cbor bs = decode_object payload_steps bs
