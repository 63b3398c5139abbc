-- ===== src/Result.antt =====
-- Rust's `Result<T, E>` with the `?` operator as a monad.
use dmtap.Prelude.{
  ◌≡◌, ◌↔◌, ◌⊎◌, inl, inr, refl, Bool, true, false, Option, none, some, subst, if◌then◌else◌,
}

pub data Result {ℓ κ} (E : Type κ) (A : Type ℓ) : Type (ℓ ⊔ κ) where
  ok : A → Result E A
  err : E → Result E A

module _ {ℓ κ μ} {E : Type κ} {A : Type ℓ} {B : Type μ} where
  infixl 5 ◌>>=◌ ◌>>◌
  abbrev pub ◌>>=◌ : Result E A → (A → Result E B) → Result E B
  ok a >>= f = f a
  err e >>= f = err e

  abbrev pub ◌>>◌ : Result E A → Result E B → Result E B
  m >> k = m >>= λ _. k

  -- What a chain returned, its second step returned, on a value of its first.
  pub >>=-inverse :
      {b : B} (m : Result E A) (next : A → Result E B)
      → (m >>= next) ≡ ok b
      → (a : A) × (next a ≡ ok b) × (m ≡ ok a)
  >>=-inverse (err e) next h = cc
  >>=-inverse (ok a) next h = (a, h, refl)

module _ {ℓ κ} {E : Type κ} {A : Type ℓ} where
  -- `Option::ok_or`
  abbrev pub ok_or : Option A → E → Result E A
  ok_or none e = err e
  ok_or (some a) e = ok a

-- `if !b { return Err(e); }`
abbrev pub ensure {κ} : {E : Type κ} → Bool → E → Result E (Unit {0})
ensure true e = ok tt
ensure false e = err e

pub ensure_iff {κ} : {E : Type κ} (b : Bool) (e : E) → (ensure b e ≡ ok tt) ↔ (b ≡ true)
ensure_iff true e = (λ h. refl, λ h. refl)
ensure_iff false e = (λ h. cc, λ h. cc)

pub then_iff {κ} :
    {E : Type κ} (m k : Result E (Unit {0})) → ((m >> k) ≡ ok tt) ↔ ((m ≡ ok tt) × (k ≡ ok tt))
then_iff (ok tt) k = (λ h. (refl, h), λ h. h.1)
then_iff (err e) k = (λ h. cc, λ h. cc)

-- `Result::map`
abbrev pub map_ok {ℓ κ μ} :
    {E : Type κ} {A : Type ℓ} {B : Type μ} → (A → B) → Result E A → Result E B
map_ok f (ok a) = ok (f a)
map_ok f (err e) = err e

-- `Result::map_err`
abbrev pub map_err {ℓ κ μ} :
    {A : Type ℓ} {E : Type κ} {F : Type μ} → (E → F) → Result E A → Result F A
map_err f (ok a) = ok a
map_err f (err e) = err (f e)

pub Result-cases {ℓ κ} :
    {A : Type ℓ} {E : Type κ} (r : Result E A) → ((a : A) × (r ≡ ok a)) ⊎ ((e : E) × (r ≡ err e))
Result-cases (ok a) = inl (a, refl)
Result-cases (err e) = inr (e, refl)

-- The result, if the call returns one, is as `P` says. Nothing is said of an error.
pub data Yields {ℓ κ μ} {E : Type κ} {A : Type ℓ} (P : A → Type μ)
    : Result E A → Type (ℓ ⊔ κ ⊔ μ) where
  fails : {e : E} → Yields P (err e)
  returns : {a : A} → P a → Yields P (ok a)

module _ {ℓ κ μ} {E : Type κ} {A : Type ℓ} {P : A → Type μ} where
  pub Yields-ok : {a : A} {call : Result E A} → call ≡ ok a → Yields P call → P a
  Yields-ok e fails = cc
  Yields-ok e (returns h) = subst P (cc) h

  pub Yields-intro : (r : Result E A) → ((a : A) → r ≡ ok a → P a) → Yields P r
  Yields-intro (ok a) h = returns (h a refl)
  Yields-intro (err e) h = fails

  pub Yields-map {κ'} :
      {Q : A → Type κ'} {r : Result E A} → Yields P r → ((a : A) → P a → Q a) → Yields Q r
  Yields-map (returns {a} h) k = returns (k a h)
  Yields-map fails k = fails

  -- The rule of `?`: what the first call yields, the rest of the block may use.
  pub Yields-bind {λ₁ λ₂} :
      {B : Type λ₁} {Q : B → Type λ₂} {next : A → Result E B} {call : Result E A}
      → Yields P call
      → ((a : A) → P a → Yields Q (next a))
      → Yields Q (call >>= next)
  Yields-bind fails rest = fails
  Yields-bind (returns {a} h) rest = rest a h

-- A branch between two functions of the same argument.
pub Yields-choose {ℓ κ μ ν} :
    {E : Type κ} {A : Type ℓ} {S : Type ν} {P : A → Type μ} (b : Bool) (f g : S → Result E A)
    (s : S)
    → (b ≡ true → Yields P (f s))
    → (b ≡ false → Yields P (g s))
    → Yields P ((if b then f else g) s)
Yields-choose true f g s hf hg = hf refl
Yields-choose false f g s hf hg = hg refl

pub Yields-map_ok {ℓ κ μ ν} :
    {E : Type κ} {A : Type ℓ} {B : Type μ} {Q : B → Type ν} (g : A → B) (r : Result E A)
    → ((a : A) → r ≡ ok a → Q (g a))
    → Yields Q (map_ok g r)
Yields-map_ok g (ok a) h = returns (h a refl)
Yields-map_ok g (err e) h = fails
