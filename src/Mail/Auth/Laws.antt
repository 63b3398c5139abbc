-- ===== src/Mail/Auth/Laws.antt =====
-- What crates/kotva-mail/src/auth.rs accepts: the comparison of secrets, and SASL PLAIN.
use Prim.Native.Nat.{bit_or-bitwise, bit_xor-bitwise, digits, differ}
use dmtap.Prelude.{
  ℕ, zero, suc, ◌/◌, ◌%◌, ◌<◌, ◌≤◌, ◌≡◌, ◌≢◌, ◌↔◌, ◌⊎◌, inl, inr, Bool-cases, refl, sym, ap, ◌∙◌,
  true, ◌&&◌, Bytes, IsBytes, List, [], ◌∷◌, ◌++◌, none, some, All, All-append, arith, max, bit_or,
  bit_xor, length, append_assoc, append-nil, ◌==◌, if◌then◌else◌, eq_bytes, eq_bytes_iff,
}
use dmtap.Cbor.Utf8.{is_utf8}
use dmtap.Mail.Text.Laws.{trim-IsGraphic}
use dmtap.Mail.Base64.{base64_encode}
use dmtap.Mail.Base64.RoundTrip.{base64_decode-base64_encode, base64_encode-IsGraphic}
use dmtap.Mail.Auth.{
  difference, ct_eq, find_password, AppPassword, StaticAuthenticator, static, split_nul, of_parts,
  credential, decode_plain,
}

differ_iff : (x y : ℕ) → (differ x y ≡ 0) ↔ (x ≡ y)
differ_iff zero y = (λ h. sym h, λ h. sym h)
differ_iff (suc x) zero = (λ h. absurd (omega arith), λ h. absurd (omega arith))
differ_iff (suc x) (suc y) = ground (arith, differ_iff x y)

digits-differ_iff : (n a b : ℕ) → a ≤ n → (digits (λ b. b) differ n a b ≡ 0) ↔ (a ≡ b)
digits-differ_iff zero zero b h = (λ e. sym e, λ e. sym e)
digits-differ_iff (suc n) zero b h = (λ e. sym e, λ e. sym e)
digits-differ_iff zero (suc a) b h = absurd (omega arith)
digits-differ_iff (suc n) (suc a) b h =
    let rest = digits-differ_iff n (suc a / 2) (b / 2) (omega arith) in
    let last = differ_iff (suc a % 2) (b % 2) in ground arith

bit_xor_iff : (a b : ℕ) → (bit_xor a b ≡ 0) ↔ (a ≡ b)
bit_xor_iff a b =
    let same : bit_xor a b ≡ digits (λ b. b) differ a a b = λ i. bit_xor-bitwise a b i in
    rw same (digits-differ_iff a a b (omega arith))

digits-max_iff : (n a b : ℕ) → a ≤ n → (digits (λ b. b) max n a b ≡ 0) ↔ ((a ≡ 0) × (b ≡ 0))
digits-max_iff zero zero b h = ground arith
digits-max_iff (suc n) zero b h = ground arith
digits-max_iff zero (suc a) b h = absurd (omega arith)
digits-max_iff (suc n) (suc a) b h =
    let rest = digits-max_iff n (suc a / 2) (b / 2) (omega arith) in ground arith

bit_or_iff : (a b : ℕ) → (bit_or a b ≡ 0) ↔ ((a ≡ 0) × (b ≡ 0))
bit_or_iff a b =
    let same : bit_or a b ≡ digits (λ b. b) max a a b = λ i. bit_or-bitwise a b i in
    rw same (digits-max_iff a a b (omega arith))

difference_iff :
    (diff : ℕ) (a b : Bytes)
    → length a ≡ length b
    → (difference diff a b ≡ 0) ↔ ((diff ≡ 0) × (a ≡ b))
unfolding difference
difference_iff diff [] [] h = (λ e. (e, refl), λ e. e.0)
difference_iff diff [] (y ∷ b) h = absurd (omega arith)
difference_iff diff (x ∷ a) [] h = absurd (omega arith)
difference_iff diff (x ∷ a) (y ∷ b) h =
    let rest = difference_iff (bit_or diff (bit_xor x y)) a b (omega arith) in
    let here = bit_or_iff diff (bit_xor x y) in let same = bit_xor_iff x y in ground arith

-- The comparison in constant time is equality of the strings.
pub ct_eq_iff : (a b : Bytes) → (ct_eq a b ≡ true) ↔ (a ≡ b)
unfolding ct_eq
ct_eq_iff a b =
    let all = difference_iff 0 a b in
    let lengths : a ≡ b → length a ≡ length b = λ e. ap (λ l. length l) e in ground arith

-- Whether the table has an entry of the user with the secret.
abbrev pub IsIssued : List AppPassword → Bytes → Bytes → Bytes → Type 0
IsIssued [] username password identity = ⊥
IsIssued (p ∷ ps) username password identity =
    ((p.username ≡ username) × (p.secret ≡ password) × (p.identity_pub ≡ identity))
    ⊎ IsIssued ps username password identity

find_password-IsIssued :
    (ps : List AppPassword) (username password identity : Bytes)
    → find_password ps username password ≡ some identity
    → IsIssued ps username password identity
unfolding find_password
find_password-IsIssued [] username password identity h = cc
find_password-IsIssued (p ∷ ps) username password identity h =
    elim (Bool-cases (eq_bytes p.username username && ct_eq p.secret password)) [
      | inl e ↦ inl (ground (arith, eq_bytes_iff p.username username, ct_eq_iff p.secret password))
      | inr e ↦ inr (find_password-IsIssued ps username password identity (ground arith))
    ]

IsIssued-find_password :
    (ps : List AppPassword) (username password identity : Bytes)
    → IsIssued ps username password identity
    → find_password ps username password ≢ none
unfolding find_password
IsIssued-find_password [] username password identity h = absurd h
IsIssued-find_password (p ∷ ps) username password identity (inl (user, secret, e)) =
    ground (arith, eq_bytes_iff p.username username, ct_eq_iff p.secret password)
IsIssued-find_password (p ∷ ps) username password identity (inr later) =
    ground (arith, IsIssued-find_password ps username password identity later)

-- The table of app-passwords verifies a user name and password exactly if it was issued that pair, and
-- returns an identity that the pair was issued for.
verify-static :
    (a : StaticAuthenticator) (username password : Bytes)
    → ((identity : Bytes)
        → (static a).verify username password ≡ some identity
        → IsIssued a.passwords username password identity)
      × ((identity : Bytes)
          → IsIssued a.passwords username password identity
          → (static a).verify username password ≢ none)
unfolding static
verify-static a username password = (
  find_password-IsIssued a.passwords username password,
  IsIssued-find_password a.passwords username password,
)

-- No byte is zero.
abbrev pub IsField : Bytes → Type 0
IsField = All (λ b. (0 < b) × (b < 256))

split_nul-field :
    (part field rest : Bytes)
    → IsField field
    → split_nul part (field ++ 0 ∷ rest) ≡ (part ++ field) ∷ split_nul [] rest
unfolding split_nul
split_nul-field part [] rest h = rw (append-nil part) refl
split_nul-field part (b ∷ bs) rest h =
    let next = split_nul-field (part ++ b ∷ []) bs rest h.1 in
    let longer = append_assoc part (b ∷ []) bs in ground arith

split_nul-last : (part field : Bytes) → IsField field → split_nul part field ≡ (part ++ field) ∷ []
unfolding split_nul
split_nul-last part [] h = rw (append-nil part) refl
split_nul-last part (b ∷ bs) h =
    let next = split_nul-last (part ++ b ∷ []) bs h.1 in
    let longer = append_assoc part (b ∷ []) bs in ground arith

IsField-IsBytes : (field : Bytes) → IsField field → IsBytes field
IsField-IsBytes [] h = tt
IsField-IsBytes (b ∷ bs) h = (h.0.1, IsField-IsBytes bs h.1)

-- SASL PLAIN: the credential that a client writes as base64 of its three fields, of which none has a zero byte
-- and all are UTF-8, is read back, whatever the authorization identity; an empty one counts as none.
pub decode_plain-base64_encode :
    (authzid authcid password : Bytes)
    → IsField authzid
    → IsField authcid
    → IsField password
    → is_utf8 authzid ≡ true
    → is_utf8 authcid ≡ true
    → is_utf8 password ≡ true
    → decode_plain (base64_encode (authzid ++ 0 ∷ (authcid ++ 0 ∷ password)))
      ≡ some (record {
        authzid = if length authzid == 0 then none else some authzid;
        authcid = authcid;
        password = password;
      })
unfolding decode_plain of_parts credential
decode_plain-base64_encode authzid authcid password hz hc hp uz uc up =
    let raw : Bytes = authzid ++ 0 ∷ (authcid ++ 0 ∷ password) in
    let small : IsBytes (authcid ++ 0 ∷ password) =
      All-append (λ b. b < 256) authcid (0 ∷ password) (IsField-IsBytes authcid hc)
        (omega arith, IsField-IsBytes password hp) in
    let small' : IsBytes raw =
      All-append (λ b. b < 256) authzid (0 ∷ (authcid ++ 0 ∷ password)) (IsField-IsBytes authzid hz)
        (omega arith, small) in
    let decoded = base64_decode-base64_encode raw small' in
    let trimmed = trim-IsGraphic (base64_encode raw) (base64_encode-IsGraphic raw small') in
    let parts : split_nul [] raw ≡ authzid ∷ authcid ∷ password ∷ [] =
      split_nul-field [] authzid _ hz
      ∙ ap (λ t. authzid ∷ t)
          (split_nul-field [] authcid password hc
            ∙ ap (λ t. authcid ∷ t) (split_nul-last [] password hp)) in
    rw (decode_plain, trimmed, decoded, parts, credential, uz, uc, up) refl
