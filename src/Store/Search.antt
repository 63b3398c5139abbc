-- ===== src/Store/Search.antt =====
-- The binary search of crates/kotva-mail/src/store.rs finds a UID exactly where it is.
use mathlib.Core.Option.{some-injective}
use dmtap.Prelude.{
  ℕ, zero, suc, ◌+◌, ◌-◌, ◌/◌, ◌<◌, ◌≤◌, ◌≡◌, ◌↔◌, inl, inr, refl, sym, ap, ◌∙◌, List, [], ◌∷◌,
  none, some, length, take, drop, get_elem?, ◌==◌, arith, Option-cases, Bool-cases, ltb,
  length-take, length-drop, get_elem?-take, get_elem?-drop,
}
use dmtap.Store.{Message, Mailbox, search, index_of_uid}
use dmtap.Store.Uids.{IsRising, IsWellFormed}

-- The message at a place has the UID.
abbrev pub IsAt : List Message → ℕ → ℕ → Type 0
IsAt ms uid i = (m : Message) × (get_elem? ms i ≡ some m) × (m.uid ≡ uid)

IsRising-take : (lo k : ℕ) (ms : List Message) → IsRising lo ms → IsRising lo (take k ms)
IsRising-take lo zero ms h = tt
IsRising-take lo (suc k) [] h = tt
IsRising-take lo (suc k) (m ∷ ms) h = (h.0, IsRising-take (suc m.uid) k ms h.1)

IsRising-drop :
    (lo k : ℕ) (ms : List Message) → IsRising lo ms → (lo' : ℕ) × IsRising lo' (drop k ms)
IsRising-drop lo zero ms h = (lo, h)
IsRising-drop lo (suc k) [] h = (lo, tt)
IsRising-drop lo (suc k) (m ∷ ms) h = IsRising-drop (suc m.uid) k ms h.1

get_elem?-ge :
    (lo i : ℕ) (ms : List Message) (m : Message)
    → IsRising lo ms
    → get_elem? ms i ≡ some m
    → lo ≤ m.uid
get_elem?-ge lo i [] m h e = cc
get_elem?-ge lo zero (x ∷ ms) m h e =
    omega (arith, ap (λ (y : Message). y.uid) (some-injective x m e))
get_elem?-ge lo (suc i) (x ∷ ms) m h e = omega (arith, get_elem?-ge (suc x.uid) i ms m h.1 e)

-- A later message has a greater UID.
get_elem?-rising :
    (lo i j : ℕ) (ms : List Message) (m n : Message)
    → IsRising lo ms
    → i < j
    → get_elem? ms i ≡ some m
    → get_elem? ms j ≡ some n
    → m.uid < n.uid
get_elem?-rising lo i j [] m n h lt e e' = cc
get_elem?-rising lo i zero (x ∷ ms) m n h lt e e' = absurd (omega arith)
get_elem?-rising lo zero (suc j) (x ∷ ms) m n h lt e e' = omega (
  arith,
  ap (λ (y : Message). y.uid) (some-injective x m e),
  get_elem?-ge (suc x.uid) j ms n h.1 e',
)
get_elem?-rising lo (suc i) (suc j) (x ∷ ms) m n h lt e e' =
    get_elem?-rising (suc x.uid) i j ms m n h.1 (omega arith) e e'

get_elem?-some :
    {A : Type 0} (xs : List A) (i : ℕ) → i < length xs → (x : A) × (get_elem? xs i ≡ some x)
get_elem?-some [] i h = absurd (omega arith)
get_elem?-some (x ∷ xs) zero h = (x, refl)
get_elem?-some (x ∷ xs) (suc i) h = get_elem?-some xs i (omega arith)

get_elem?-bound :
    {A : Type 0} (xs : List A) (i : ℕ) (x : A) → get_elem? xs i ≡ some x → i < length xs
get_elem?-bound [] i x e = cc
get_elem?-bound (y ∷ xs) zero x e = omega arith
get_elem?-bound (y ∷ xs) (suc i) x e = omega (arith, get_elem?-bound xs i x e)

IsAt-intro :
    (ms : List Message) (uid i : ℕ) (n : Message)
    → get_elem? ms i ≡ some n
    → n.uid ≡ uid
    → IsAt ms uid i
IsAt-intro ms uid i n e h = (n, e, h)

-- How the UID in the middle compares with the UID sought, from where that is.
middle :
    (lo mid i : ℕ) (ms : List Message) (n : Message) (uid : ℕ)
    → IsRising lo ms
    → get_elem? ms mid ≡ some n
    → IsAt ms uid i
    → (mid < i → n.uid < uid) × (mid ≡ i → n.uid ≡ uid) × (i < mid → uid < n.uid)
middle lo mid i ms n uid rising at_mid (m, e, is_uid) = (
  λ lt. omega (arith, get_elem?-rising lo mid i ms n m rising lt at_mid e),
  λ eq.
      (let same = some-injective n m (sym at_mid ∙ ap (λ j. get_elem? ms j) eq ∙ e) in
        ap (λ (y : Message). y.uid) same ∙ is_uid),
  λ gt. omega (arith, get_elem?-rising lo i mid ms m n rising gt e at_mid),
)

search-above :
    (fuel base : ℕ) (ms : List Message) (uid : ℕ) (n : Message)
    → get_elem? ms (length ms / 2) ≡ some n
    → n.uid < uid
    → search (suc fuel) base ms uid
      ≡ search fuel (base + length ms / 2 + 1) (drop (length ms / 2 + 1) ms) uid
unfolding search
search-above fuel base ms uid n e h = rw (search, e) (ground arith)

search-found :
    (fuel base : ℕ) (ms : List Message) (uid : ℕ) (n : Message)
    → get_elem? ms (length ms / 2) ≡ some n
    → n.uid ≡ uid
    → search (suc fuel) base ms uid ≡ some (base + length ms / 2)
unfolding search
search-found fuel base ms uid n e h = rw (search, e) (ground arith)

search-below :
    (fuel base : ℕ) (ms : List Message) (uid : ℕ) (n : Message)
    → get_elem? ms (length ms / 2) ≡ some n
    → uid < n.uid
    → search (suc fuel) base ms uid ≡ search fuel base (take (length ms / 2) ms) uid
unfolding search
search-below fuel base ms uid n e h = rw (search, e) (ground arith)

search-empty :
    (fuel base : ℕ) (ms : List Message) (uid : ℕ)
    → get_elem? ms (length ms / 2) ≡ none
    → search (suc fuel) base ms uid ≡ none
unfolding search
search-empty fuel base ms uid e = rw (search, e)

IsAt-drop :
    (k i : ℕ) (ms : List Message) (uid : ℕ) → k ≤ i → IsAt (drop k ms) uid (i - k) ↔ IsAt ms uid i
IsAt-drop k i ms uid h =
    let same = get_elem?-drop k i ms h in
    (λ (m, e, u). (m, sym same ∙ e, u), λ (m, e, u). (m, same ∙ e, u))

IsAt-take : (k i : ℕ) (ms : List Message) (uid : ℕ) → i < k → IsAt (take k ms) uid i ↔ IsAt ms uid i
IsAt-take k i ms uid h =
    let same = get_elem?-take k i ms h in
    (λ (m, e, u). (m, sym same ∙ e, u), λ (m, e, u). (m, same ∙ e, u))

IsAt-bound : (ms : List Message) (uid i : ℕ) → IsAt ms uid i → i < length ms
IsAt-bound ms uid i (m, e, is_uid) = get_elem?-bound ms i m e

-- What the search returns is the place of the UID, counted from `base`.
search_sound :
    (fuel base : ℕ) (ms : List Message) (uid i : ℕ)
    → search fuel base ms uid ≡ some i
    → (base ≤ i) × IsAt ms uid (i - base)
search_sound zero base ms uid i e = absurd (unfold search in cc (e))
search_sound (suc fuel) base ms uid i e =
    let mid = length ms / 2 in
    elim (Option-cases (get_elem? ms mid)) [
      | inl at_mid ↦ absurd (cc (e, search-empty fuel base ms uid at_mid))
      | inr (n, at_mid) ↦
          (let inside = get_elem?-bound ms mid n at_mid in
            elim (Bool-cases (ltb n.uid uid)) [
              | inl lt ↦
                  (let (le, is_at) =
                      search_sound fuel (base + mid + 1) (drop (mid + 1) ms) uid i
                        (sym (search-above fuel base ms uid n at_mid (ground arith)) ∙ e) in
                    let shift : i - (base + mid + 1) ≡ i - base - (mid + 1) = omega arith in
                    (
                      omega arith,
                      (IsAt-drop (mid + 1) (i - base) ms uid (omega arith)).0 (rw shift at is_at),
                    ))
              | inr ge ↦ elim (Bool-cases (n.uid == uid)) [
                | inl eq ↦
                    (let found =
                        some-injective (base + mid) i
                          (sym (search-found fuel base ms uid n at_mid (ground arith)) ∙ e) in
                      let shift : mid ≡ i - base = omega arith in
                      (omega arith, rw shift at (IsAt-intro ms uid mid n at_mid (ground arith))))
                | inr ne ↦
                    (let (le, is_at) =
                        search_sound fuel base (take mid ms) uid i
                          (sym (search-below fuel base ms uid n at_mid (ground arith)) ∙ e) in
                      let small = IsAt-bound (take mid ms) uid (i - base) is_at in
                      let len = length-take mid ms (omega arith) in
                      (le, (IsAt-take mid (i - base) ms uid (omega arith)).0 is_at))
              ]
            ])
    ]

search_complete :
    (fuel base lo : ℕ) (ms : List Message) (uid i : ℕ)
    → length ms ≤ fuel
    → IsRising lo ms
    → IsAt ms uid i
    → search fuel base ms uid ≡ some (base + i)
search_complete zero base lo ms uid i enough rising is_at =
    absurd (omega (arith, IsAt-bound ms uid i is_at))
search_complete (suc fuel) base lo ms uid i enough rising is_at =
    let mid = length ms / 2 in
    let inside = IsAt-bound ms uid i is_at in
    let (n, at_mid) = get_elem?-some ms mid (omega arith) in
    let place = middle lo mid i ms n uid rising at_mid is_at in
    elim (Bool-cases (ltb mid i)) [
      | inl lt ↦
          (let (lo', rest) = IsRising-drop lo (mid + 1) ms rising in
            let right = length-drop (mid + 1) ms in
            let shift : base + mid + 1 + (i - (mid + 1)) ≡ base + i = ground arith in
            search-above fuel base ms uid n at_mid (ground arith)
            ∙ search_complete fuel (base + mid + 1) lo' (drop (mid + 1) ms) uid (i - (mid + 1))
                (omega arith) rest ((IsAt-drop (mid + 1) i ms uid (ground arith)).1 is_at)
            ∙ ap some shift)
      | inr ge ↦ elim (Bool-cases (mid == i)) [
        | inl eq ↦
            (let shift : base + mid ≡ base + i = ground arith in
              search-found fuel base ms uid n at_mid (ground arith) ∙ ap some shift)
        | inr ne ↦
            (let left = length-take mid ms (omega arith) in
              search-below fuel base ms uid n at_mid (ground arith)
              ∙ search_complete fuel base lo (take mid ms) uid i (omega arith)
                  (IsRising-take lo mid ms rising)
                  ((IsAt-take mid i ms uid (ground arith)).1 is_at))
      ]
    ]

-- In a well-formed mailbox, the binary search returns an index exactly if the message there has the UID.
pub index_of_uid-eq-some_iff :
    (mb : Mailbox) (uid i : ℕ)
    → IsWellFormed mb
    → (index_of_uid mb uid ≡ some i) ↔ IsAt mb.messages uid i
unfolding index_of_uid
index_of_uid-eq-some_iff mb uid i wf =
    let from_zero : i - 0 ≡ i = omega arith in
    let to_zero : 0 + i ≡ i = omega arith in
    (
      λ e. rw from_zero at ((search_sound (length mb.messages) 0 mb.messages uid i e).1),
      λ is_at.
          search_complete (length mb.messages) 0 0 mb.messages uid i (omega arith) wf.0 is_at
          ∙ ap some to_zero,
    )
