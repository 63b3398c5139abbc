-- ===== src/Mote/Challenge.antt =====
-- crates/kotva-core/src/mote.rs: the challenge responses and delivery tags of an envelope.
use dmtap.Prelude.{ℕ, Bool, false, Bytes, Option, ◌==◌, eq_bytes, if◌then◌else◌}
use dmtap.Result
use dmtap.Result.{Result, ok, err}
use dmtap.Cbor.Value.{
  Cv, Items, Pairs, int_keys, u64, bytes, text, array, map, no_items, item, no_pairs, pair,
  CborError, type_mismatch, unknown_discriminant,
}
use dmtap.Cbor.Encode.{encode}
use dmtap.Cbor.Reader.{
  Step, from_cv, required, optional, optional_pair, done, as_u8, as_u32, as_u64, as_bytes, as_text,
  as_array, ◌>>=◌,
}

pub record ArcToken : Type 0 where
  pub issuer : Bytes
  pub token : Bytes
  pub origin : Bytes
  pub nonce : Option Bytes

-- `params` is an array of three numbers.
pub record PowSolution : Type 0 where
  pub algo : Bytes
  pub params : ℕ × ℕ × ℕ
  pub epoch_nonce : Bytes
  pub solution : Bytes
  pub difficulty : ℕ

pub record PostageStamp : Type 0 where
  pub issuer : Bytes
  pub serial : Bytes
  pub amount : ℕ
  pub currency : Bytes
  pub expiry : ℕ
  pub audience : Option Bytes
  pub sig : Bytes

pub record Vouch : Type 0 where
  pub voucher : Bytes
  pub subject : Bytes
  pub recipient : Bytes
  pub exp : ℕ
  pub sig : Bytes

pub data ChallengeResponse : Type 0 where
  arc : ArcToken → ChallengeResponse
  pow : PowSolution → ChallengeResponse
  postage : PostageStamp → ChallengeResponse
  vouch : Vouch → ChallengeResponse

unfoldable pub params_items : ℕ × ℕ × ℕ → Items
params_items (a, b, c) = item (u64 a) (item (u64 b) (item (u64 c) no_items))

unfoldable pub challenge_pairs : ChallengeResponse → Pairs int_keys
unfolding optional_pair params_items
challenge_pairs (arc a) = pair 0 (u64 1) (
    pair 1 (bytes a.issuer)
      (pair 2 (bytes a.token) (pair 3 (bytes a.origin) (optional_pair 4 bytes a.nonce no_pairs))))
challenge_pairs (pow p) = pair 0 (u64 2) (
    pair 1 (text p.algo) (
      pair 2 (array (params_items p.params)) (
        pair 3 (bytes p.epoch_nonce)
          (pair 4 (bytes p.solution) (pair 5 (u64 p.difficulty) no_pairs)))))
challenge_pairs (postage s) = pair 0 (u64 3) (
    pair 1 (bytes s.issuer) (
      pair 2 (bytes s.serial) (
        pair 3 (u64 s.amount) (
          pair 4 (text s.currency) (
            pair 5 (u64 s.expiry)
              (optional_pair 6 bytes s.audience (pair 7 (bytes s.sig) no_pairs)))))))
challenge_pairs (vouch v) = pair 0 (u64 4) (
    pair 1 (bytes v.voucher) (
      pair 2 (bytes v.subject)
        (pair 3 (bytes v.recipient) (pair 4 (u64 v.exp) (pair 5 (bytes v.sig) no_pairs)))))

unfoldable pub challenge_cv : ChallengeResponse → Cv
challenge_cv c = map (challenge_pairs c)

unfoldable pub challenge_det_cbor : ChallengeResponse → Bytes
challenge_det_cbor c = encode (challenge_cv c)

unfoldable pub arc_steps : Step ChallengeResponse
arc_steps = do
  issuer ← required as_bytes 1
  token ← required as_bytes 2
  origin ← required as_bytes 3
  nonce ← optional as_bytes 4
  done (arc (record { issuer = issuer; token = token; origin = origin; nonce = nonce }))

-- The array of a proof of work: three numbers, the length checked first.
unfoldable pub params_of : Items → Result CborError (ℕ × ℕ × ℕ)
params_of (item a (item b (item c no_items))) =
    Result.◌>>=◌ (as_u32 a)
      λ x. Result.◌>>=◌ (as_u32 b) λ y. Result.map_ok (λ z. (x, y, z)) (as_u32 c)
params_of _ = err type_mismatch

unfoldable pub params_from_cv : Cv → Result CborError (ℕ × ℕ × ℕ)
params_from_cv cv = Result.◌>>=◌ (as_array cv) params_of

unfoldable pub pow_steps : Step ChallengeResponse
pow_steps = do
  algo ← required as_text 1
  params ← required params_from_cv 2
  epoch_nonce ← required as_bytes 3
  solution ← required as_bytes 4
  difficulty ← required as_u8 5
  done (
      pow (record {
        algo = algo;
        params = params;
        epoch_nonce = epoch_nonce;
        solution = solution;
        difficulty = difficulty;
      }))

unfoldable pub postage_steps : Step ChallengeResponse
postage_steps = do
  issuer ← required as_bytes 1
  serial ← required as_bytes 2
  amount ← required as_u64 3
  currency ← required as_text 4
  expiry ← required as_u64 5
  audience ← optional as_bytes 6
  sig ← required as_bytes 7
  done (
      postage (record {
        issuer = issuer;
        serial = serial;
        amount = amount;
        currency = currency;
        expiry = expiry;
        audience = audience;
        sig = sig;
      }))

unfoldable pub vouch_steps : Step ChallengeResponse
vouch_steps = do
  voucher ← required as_bytes 1
  subject ← required as_bytes 2
  recipient ← required as_bytes 3
  exp ← required as_u64 4
  sig ← required as_bytes 5
  done (
      vouch (record {
        voucher = voucher;
        subject = subject;
        recipient = recipient;
        exp = exp;
        sig = sig;
      }))

unfoldable pub challenge_of : ℕ → Step ChallengeResponse
challenge_of disc f =
    if disc == 1
    then arc_steps f
    else if disc == 2
    then pow_steps f
    else if disc == 3
    then postage_steps f
    else if disc == 4
    then vouch_steps f
    else err (unknown_discriminant disc)

unfoldable pub challenge_steps : Step ChallengeResponse
challenge_steps = required as_u64 0 >>= challenge_of

-- `Fields::from_cv(cv)?` with the steps behind it.
unfoldable pub object_from_cv {ℓ} : {A : Type ℓ} → Step A → Cv → Result CborError A
object_from_cv steps cv = Result.◌>>=◌ (from_cv cv) λ f. Result.map_ok (λ (a, left). a) (steps f)

unfoldable pub challenge_from_cv : Cv → Result CborError ChallengeResponse
challenge_from_cv cv = object_from_cv challenge_steps cv

pub data DeliveryTag : Type 0 where
  key group blinded : Bytes → DeliveryTag

unfoldable pub value_bytes : DeliveryTag → Bytes
value_bytes (key b) = b
value_bytes (group b) = b
value_bytes (blinded b) = b

unfoldable pub resolves_to_key : DeliveryTag → Bytes → Bool
resolves_to_key (key k) ik = eq_bytes k ik
resolves_to_key _ ik = false

unfoldable pub discriminant : DeliveryTag → ℕ
discriminant (key b) = 1
discriminant (group b) = 2
discriminant (blinded b) = 3

unfoldable pub tag_pairs : DeliveryTag → Pairs int_keys
tag_pairs t = pair 0 (u64 (discriminant t)) (pair 1 (bytes (value_bytes t)) no_pairs)

unfoldable pub tag_cv : DeliveryTag → Cv
tag_cv t = map (tag_pairs t)

unfoldable pub tag_det_cbor : DeliveryTag → Bytes
tag_det_cbor t = encode (tag_cv t)

unfoldable pub tag_of : ℕ → Bytes → Result CborError DeliveryTag
tag_of disc val =
    if disc == 1
    then ok (key val)
    else if disc == 2
    then ok (group val)
    else if disc == 3
    then ok (blinded val)
    else err (unknown_discriminant disc)

-- Unknown keys are denied before the discriminant is looked at.
unfoldable pub tag_steps : Step (ℕ × Bytes)
tag_steps = do disc ← required as_u64 0; val ← required as_bytes 1; done (disc, val)

unfoldable pub tag_from_cv : Cv → Result CborError DeliveryTag
tag_from_cv cv = Result.◌>>=◌ (object_from_cv tag_steps cv) λ (disc, val). tag_of disc val
