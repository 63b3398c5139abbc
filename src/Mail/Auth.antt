-- ===== src/Mail/Auth.antt =====
-- crates/kotva-mail/src/auth.rs: app-passwords and SASL credentials. A string is its UTF-8 bytes.
pub mod Laws
use dmtap.Prelude.{
  ℕ, suc, ◌+◌, Bool, true, false, ◌&&◌, Bytes, List, [], ◌∷◌, ◌++◌, Option, none, some, bit_or,
  bit_xor, ascii, length, ◌==◌, if◌then◌else◌, eq_bytes,
}
use dmtap.Cbor.Utf8.{is_utf8}
use dmtap.Mail.Text.{trim, to_ascii_uppercase}
use dmtap.Mail.Base64.{base64_decode}

pub record AppPassword : Type 0 where
  pub username : Bytes
  pub secret : Bytes
  pub identity_pub : Bytes
  pub label : Bytes

-- The trait `Authenticator`.
pub record Authenticator : Type 0 where
  pub verify : Bytes → Bytes → Option Bytes
  pub secret_for : Bytes → Option Bytes

pub record StaticAuthenticator : Type 0 where
  pub passwords : List AppPassword

abbrev pub new_authenticator : StaticAuthenticator
new_authenticator = record { passwords = [] }

unfoldable pub issue : StaticAuthenticator → Bytes → Bytes → Bytes → Bytes → StaticAuthenticator
issue a username secret identity_pub label = record {
  passwords =
      a.passwords
      ++ record { username = username; secret = secret; identity_pub = identity_pub; label = label }
        ∷ [];
}

-- The loop of `ct_eq`, over the pairs that `zip` makes.
unfoldable pub difference : ℕ → Bytes → Bytes → ℕ
difference diff [] b = diff
difference diff (x ∷ a) [] = diff
difference diff (x ∷ a) (y ∷ b) = difference (bit_or diff (bit_xor x y)) a b

unfoldable pub ct_eq : Bytes → Bytes → Bool
ct_eq a b = if length a == length b then difference 0 a b == 0 else false

unfoldable pub find_password : List AppPassword → Bytes → Bytes → Option Bytes
find_password [] username password = none
find_password (p ∷ ps) username password =
    let rest = find_password ps username password in
    if eq_bytes p.username username && ct_eq p.secret password then some p.identity_pub else rest

unfoldable pub find_secret : List AppPassword → Bytes → Option Bytes
find_secret [] username = none
find_secret (p ∷ ps) username =
    let rest = find_secret ps username in
    if eq_bytes p.username username then some p.secret else rest

-- `impl Authenticator for StaticAuthenticator`
unfoldable pub static : StaticAuthenticator → Authenticator
static a = record {
  verify = λ username password. find_password a.passwords username password;
  secret_for = λ username. find_secret a.passwords username;
}

pub record SaslCredential : Type 0 where
  pub authzid : Option Bytes
  pub authcid : Bytes
  pub password : Bytes

pub data SaslMechanism : Type 0 where
  plain login : SaslMechanism

unfoldable pub parse_mechanism : Bytes → Option SaslMechanism
parse_mechanism name =
    if eq_bytes (to_ascii_uppercase name) (ascii "PLAIN")
    then some plain
    else if eq_bytes (to_ascii_uppercase name) (ascii "LOGIN")
    then some login
    else none

unfoldable pub mechanism_name : SaslMechanism → Bytes
mechanism_name plain = ascii "PLAIN"
mechanism_name login = ascii "LOGIN"

-- `raw.split(|&b| b == 0)`
unfoldable pub split_nul : Bytes → Bytes → List Bytes
split_nul part [] = part ∷ []
split_nul part (b ∷ bs) =
    let next = part ∷ split_nul [] bs in
    let longer = split_nul (part ++ b ∷ []) bs in if b == 0 then next else longer

-- `String::from_utf8(…).ok()?` on each field.
unfoldable pub credential : Bytes → Bytes → Bytes → Option SaslCredential
credential authzid authcid passwd =
    if is_utf8 authzid && (is_utf8 authcid && is_utf8 passwd)
    then some (record {
      authzid = if length authzid == 0 then none else some authzid;
      authcid = authcid;
      password = passwd;
    })
    else none

unfoldable pub of_parts : List Bytes → Option SaslCredential
of_parts (authzid ∷ authcid ∷ passwd ∷ []) = credential authzid authcid passwd
of_parts _ = none

unfoldable pub decode_plain : Bytes → Option SaslCredential
decode_plain b64 = elim (base64_decode (trim b64)) [
  | none ↦ none
  | some raw ↦ of_parts (split_nul [] raw)
]

unfoldable pub decode_login_field : Bytes → Option Bytes
decode_login_field b64 = elim (base64_decode (trim b64)) [
  | none ↦ none
  | some raw ↦ if is_utf8 raw then some raw else none
]
