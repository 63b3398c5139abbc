-- ===== src/Store/Uids.antt =====
-- The well-formed mailboxes of crates/kotva-mail/src/store.rs, and that its operations keep them so.
use mathlib.Core.Option.{some-injective}
use dmtap.Prelude.{
  ℕ, zero, suc, ◌+◌, ◌^◌, ◌<◌, ◌≤◌, ◌≡◌, refl, ap, Bool, false, ◌||◌, List, [], ◌∷◌, ◌++◌, some,
  get_elem?, All, ◌==◌, arith, if◌then◌else◌,
}
use dmtap.Store.{Message, Mailbox, remove}

-- Whether a message with the UID `u` is among the messages.
unfoldable pub holds : List Message → ℕ → Bool
holds [] u = false
holds (m ∷ ms) u = m.uid == u || holds ms u

-- The UIDs ascend, from `lo` on.
abbrev pub IsRising : ℕ → List Message → Type 0
IsRising lo [] = Unit {0}
IsRising lo (m ∷ ms) = (lo ≤ m.uid) × IsRising (suc m.uid) ms

-- A message is older than the counters: its UID was given out, and its numbers are not ahead.
abbrev pub IsOlder : ℕ → ℕ → Message → Type 0
IsOlder uid_next highest m =
    (m.uid < uid_next) × (m.modseq ≤ highest) × (m.created_modseq ≤ m.modseq)

-- An entry of the log of vanished UIDs: given out before, not ahead, and no longer a message.
abbrev pub IsGone : List Message → ℕ → ℕ → ℕ × ℕ → Type 0
IsGone ms uid_next highest (u, modseq) = (u < uid_next) × (modseq ≤ highest) × (holds ms u ≡ false)

abbrev pub IsWellFormed : Mailbox → Type 0
IsWellFormed mb =
    IsRising 0 mb.messages
    × All (IsOlder mb.uid_next mb.highest_modseq) mb.messages
    × All (IsGone mb.messages mb.uid_next mb.highest_modseq) mb.expunged

-- The counters do not wrap at the next operation.
abbrev pub HasRoom : Mailbox → Type 0
HasRoom mb = (mb.uid_next + 1 < 2 ^ 32) × (mb.highest_modseq + 1 < 2 ^ 64)

pub IsRising-append :
    (lo : ℕ) (ms : List Message) (m : Message) (uid_next highest : ℕ)
    → IsRising lo ms
    → All (IsOlder uid_next highest) ms
    → lo ≤ uid_next
    → m.uid ≡ uid_next
    → IsRising lo (ms ++ m ∷ [])
IsRising-append lo [] m n h rising older le e = (omega arith, tt)
IsRising-append lo (x ∷ ms) m n h rising older le e =
    (rising.0, IsRising-append (suc x.uid) ms m n h rising.1 older.1 (omega arith) e)

pub holds-append :
    (ms : List Message) (m : Message) (u : ℕ) → holds (ms ++ m ∷ []) u ≡ (holds ms u || m.uid == u)
unfolding holds
holds-append [] m u = ground arith
holds-append (x ∷ ms) m u = ground (arith, holds-append ms m u)

-- A UID below those that rise is not among them.
pub holds-below :
    (lo : ℕ) (ms : List Message) (u : ℕ) → IsRising lo ms → u < lo → holds ms u ≡ false
unfolding holds
holds-below lo [] u rising h = refl
holds-below lo (m ∷ ms) u rising h = ground (arith, holds-below (suc m.uid) ms u rising.1)

IsRising-weaken : (lo lo' : ℕ) (ms : List Message) → lo' ≤ lo → IsRising lo ms → IsRising lo' ms
IsRising-weaken lo lo' [] le h = tt
IsRising-weaken lo lo' (m ∷ ms) le h = (omega arith, h.1)

pub IsRising-remove :
    (lo : ℕ) (ms : List Message) (i : ℕ) → IsRising lo ms → IsRising lo (remove ms i)
unfolding remove
IsRising-remove lo [] i h = tt
IsRising-remove lo (m ∷ ms) zero h = IsRising-weaken (suc m.uid) lo ms (omega arith) h.1
IsRising-remove lo (m ∷ ms) (suc i) h = (h.0, IsRising-remove (suc m.uid) ms i h.1)

pub All-remove {ℓ} :
    {A : Type ℓ} (P : A → Type 0) (xs : List A) (i : ℕ) → All P xs → All P (remove xs i)
unfolding remove
All-remove P [] i h = tt
All-remove P (x ∷ xs) zero h = h.1
All-remove P (x ∷ xs) (suc i) h = (h.0, All-remove P xs i h.1)

get_elem?-IsRising :
    (lo : ℕ) (ms : List Message) (i : ℕ) (m : Message)
    → IsRising lo ms
    → get_elem? ms i ≡ some m
    → lo ≤ m.uid
get_elem?-IsRising lo [] i m h e = cc
get_elem?-IsRising lo (x ∷ ms) zero m h e =
    omega (arith, ap (λ (y : Message). y.uid) (some-injective x m e))
get_elem?-IsRising lo (x ∷ ms) (suc i) m h e =
    omega (arith, get_elem?-IsRising (suc x.uid) ms i m h.1 e)

-- Removing takes out the UID of the message removed, and no other.
pub holds-remove :
    (lo : ℕ) (ms : List Message) (i : ℕ) (m : Message) (u : ℕ)
    → IsRising lo ms
    → get_elem? ms i ≡ some m
    → holds (remove ms i) u ≡ (if m.uid == u then false else holds ms u)
unfolding holds remove
holds-remove lo [] i m u h e = cc
holds-remove lo (x ∷ ms) zero m u h e =
    let same : x ≡ m = some-injective x m e in
    let x_uid : x.uid ≡ m.uid = ap (λ (y : Message). y.uid) same in
    ground (arith, holds-below (suc x.uid) ms u h.1)
holds-remove lo (x ∷ ms) (suc i) m u h e =
    let rest = holds-remove (suc x.uid) ms i m u h.1 e in
    let higher = get_elem?-IsRising (suc x.uid) ms i m h.1 e in ground arith
