-- ===== src/Mote/FileLaws.antt =====
-- crates/kotva-core/src/mote.rs: the tiers of attachments, and the inbound spool under its cap.
use dmtap.Prelude.{
  ℕ, ◌+◌, ◌*◌, ◌^◌, ◌≤◌, ◌<◌, ◌≡◌, ◌↔◌, refl, arith, Bytes, List, [], ◌∷◌, Option, none, some,
  length,
}
use dmtap.Result.{Result, ok, err}
use dmtap.Mote.Kind.{MoteError}
use dmtap.Mote.File.{
  InboundSpool, new_spool, checked_add, admit_total, admit_bytes, DurabilityClass, origin_hold,
  recipient_pinned, cluster_replicated, pinned, unknown, Durability, ManifestRef,
}

abbrev accepted_size : Result MoteError (Unit {0}) → ℕ → ℕ
accepted_size (ok u) n = n
accepted_size (err e) n = 0

-- The spool after offers of these sizes, and the sizes that it admitted together.
unfoldable pub after_offers : InboundSpool → List ℕ → InboundSpool
after_offers s [] = s
after_offers s (n ∷ later) = after_offers (admit_bytes s n).1 later

unfoldable pub admitted : InboundSpool → List ℕ → ℕ
admitted s [] = 0
admitted s (n ∷ later) = accepted_size (admit_bytes s n).0 n + admitted (admit_bytes s n).1 later

admit_bytes_used :
    (s : InboundSpool) (n : ℕ)
    → (admit_bytes s n).1.used ≡ s.used + accepted_size (admit_bytes s n).0 n
unfolding admit_bytes admit_total checked_add
admit_bytes_used s n = ground arith

admit_bytes_cap : (s : InboundSpool) (n : ℕ) → (admit_bytes s n).1.cap ≡ s.cap
unfolding admit_bytes admit_total checked_add
admit_bytes_cap s n = ground arith

admit_bytes-le : (s : InboundSpool) (n : ℕ) → s.used ≤ s.cap → (admit_bytes s n).1.used ≤ s.cap
unfolding admit_bytes admit_total checked_add
admit_bytes-le s n h = ground arith

after_offers_state :
    (s : InboundSpool) (ns : List ℕ)
    → s.used ≤ s.cap
    → ((after_offers s ns).used ≡ s.used + admitted s ns)
      × ((after_offers s ns).cap ≡ s.cap)
      × ((after_offers s ns).used ≤ s.cap)
unfolding after_offers admitted
after_offers_state s [] h = (omega arith, refl, h)
after_offers_state s (n ∷ later) h =
    let t = (admit_bytes s n).1 in
    let cap = admit_bytes_cap s n in
    let (sum, kept, bound) =
      after_offers_state t later (omega (arith, cap, admit_bytes-le s n h)) in
    (omega (arith, sum, admit_bytes_used s n), omega (arith, kept, cap), omega (arith, bound, cap))

admit_bytes-eq-ok_iff :
    (s : InboundSpool) (n : ℕ)
    → s.cap < 2 ^ 64
    → ((admit_bytes s n).0 ≡ ok tt) ↔ (s.used + n ≤ s.cap)
unfolding admit_bytes admit_total checked_add
admit_bytes-eq-ok_iff s n h = ground arith

-- A spool with a cap below 2 ^ 64 that was offered any sizes holds what it admitted and no more than its cap, and admits a
-- further size exactly if that fits under the cap with what it holds.
pub after_offers-new_spool :
    (cap n : ℕ) (ns : List ℕ)
    → cap < 2 ^ 64
    → ((after_offers (new_spool cap) ns).used ≡ admitted (new_spool cap) ns)
      × ((after_offers (new_spool cap) ns).used ≤ cap)
      × (((admit_bytes (after_offers (new_spool cap) ns) n).0 ≡ ok tt)
          ↔ (admitted (new_spool cap) ns + n ≤ cap))
unfolding new_spool
after_offers-new_spool cap n ns h =
    let s = new_spool cap in
    let (sum, kept, bound) = after_offers_state s ns (omega arith) in
    let iff = admit_bytes-eq-ok_iff (after_offers s ns) n (omega (arith, kept)) in
    (
      omega (arith, sum),
      bound,
      (λ e. omega (arith, iff.0 e, sum, kept), λ le. iff.1 (omega (arith, le, sum, kept))),
    )

-- The terms that the class of a contract asks for.
abbrev pub HasTerms : DurabilityClass → Option ℕ → Option ℕ → Type 0
HasTerms (unknown b) retention replicas = ⊥
HasTerms cluster_replicated retention replicas = (n : ℕ) × (replicas ≡ some n) × (0 < n)
HasTerms pinned retention replicas = (term : ℕ) × (retention ≡ some term)
HasTerms origin_hold retention replicas = Unit {0}
HasTerms recipient_pinned retention replicas = Unit {0}

-- What is over 25 MiB has a contract, and a contract has its terms.
abbrev pub IsContracted : Option Durability → ℕ → Type 0
IsContracted none size = size ≤ 25 * 1024 * 1024
IsContracted (some d) size = HasTerms d.class d.retention d.replicas

-- Up to 64 KiB the content is inline, with the length declared; above, it is a reference.
abbrev pub IsPlaced : Option Bytes → Option ManifestRef → ℕ → Type 0
IsPlaced (some content) none size = (size ≤ 64 * 1024) × (length content ≡ size)
IsPlaced none (some m) size = (64 * 1024 < size) × IsContracted m.durability m.size
IsPlaced (some content) (some m) size = ⊥
IsPlaced none none size = ⊥
