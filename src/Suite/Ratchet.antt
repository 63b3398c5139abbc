-- ===== src/Suite/Ratchet.antt =====
-- The suite ratchet of crates/kotva-core/src/suite.rs never goes down.
use dmtap.Prelude.{
  ℕ, ◌≤◌, ◌<◌, ◌≡◌, Bytes, List, [], ◌∷◌, arith, lookup, lookup-insert, eq_bytes, eq_bytes_iff, ltb,
  if◌then◌else◌,
}
use dmtap.Result.{ok, err}
use dmtap.Suite.{Suite, as_u8, SuiteRatchet, suite_downgrade, check, observe, accept, floor_of}

-- The floor of a contact, 0 if it was never seen.
abbrev pub mark : SuiteRatchet → Bytes → ℕ
mark r contact = floor_of (lookup contact r.floors)

-- A suite passes exactly when it is not below the floor, and a first contact's suite always passes.
pub check-mark :
    (r : SuiteRatchet) (c : Bytes) (s : Suite)
    → (check r c s ≡ (if ltb (as_u8 s) (mark r c) then err suite_downgrade else ok tt))
unfolding check
check-mark r c s = ground arith

pub mark-observe :
    (r : SuiteRatchet) (c d : Bytes) (s : Suite)
    → mark (observe r c s) d ≡ (
        if eq_bytes c d then (if ltb (mark r c) (as_u8 s) then as_u8 s else mark r c) else mark r d)
unfolding observe
mark-observe r c d s =
    ground
      (arith, lookup-insert c d (if ltb (mark r c) (as_u8 s) then as_u8 s else mark r c) r.floors)

-- The ratchet after a history of messages, accepted or not.
pub after : SuiteRatchet → List (Bytes × Suite) → SuiteRatchet
after r [] = r
after r ((contact, suite) ∷ later) = after (accept r contact suite).1 later

accept_mono : (r : SuiteRatchet) (c d : Bytes) (s : Suite) → mark r d ≤ mark (accept r c s).1 d
unfolding accept
accept_mono r c d s = ground (arith, mark-observe r c d s, eq_bytes_iff c d)

after_mono :
    (r : SuiteRatchet) (d : Bytes) (later : List (Bytes × Suite))
    → mark r d ≤ mark (after r later) d
unfolding after
after_mono r d [] = omega arith
after_mono r d ((c, s) ∷ later) =
    omega (arith, accept_mono r c d s, after_mono (accept r c s).1 d later)

accept-raises :
    (r : SuiteRatchet) (c : Bytes) (s : Suite)
    → (accept r c s).0 ≡ ok tt
    → as_u8 s ≤ mark (accept r c s).1 c
unfolding accept
accept-raises r c s h = ground (arith, mark-observe r c c s, eq_bytes_iff c c)

-- Once a suite was accepted from a contact, every lower suite is refused from that contact, whatever
-- messages of any contacts came between, and the refusal leaves the ratchet as it is.
pub accept_no_downgrade :
    (r : SuiteRatchet) (c : Bytes) (s t : Suite) (later : List (Bytes × Suite))
    → (accept r c s).0 ≡ ok tt
    → as_u8 t < as_u8 s
    → accept (after (accept r c s).1 later) c t
      ≡ (err suite_downgrade, after (accept r c s).1 later)
accept_no_downgrade r c s t later accepted below =
    let now = after (accept r c s).1 later in
    unfold accept in
    ground
      (arith, accept-raises r c s accepted, after_mono (accept r c s).1 c later, check-mark now c t)
