-- ===== src/Store/Sync.antt =====
-- `vanished_since` of crates/kotva-mail/src/store.rs, over a history of operations: what a client that
-- comes back learns of the messages that it knew.
use dmtap.Prelude.{
  ℕ, suc, ◌+◌, ◌^◌, ◌<◌, ◌≤◌, ◌≡◌, ◌⊎◌, inl, inr, refl, sym, ap, ◌∙◌, Bool, true, false, ◌||◌, List,
  [], ◌∷◌, ◌++◌, length, get_elem?, All, ◌==◌, arith, Option-cases, if◌then◌else◌, ltb,
}
use dmtap.Store.{
  Message, new_message, Mailbox, expunged_since, insert_uid, sort_uids, vanished_since,
}
use dmtap.Store.Uids.{holds, holds-append, holds-remove, IsGone, IsWellFormed, HasRoom}
use dmtap.Store.Keep.{
  append_lem, remove_at_lem, remove_at-none, Op, append_op, remove_op, step, step-IsWellFormed,
}

unfoldable pub reports : List ℕ → ℕ → Bool
reports [] u = false
reports (v ∷ vs) u = v == u || reports vs u

reports-insert_uid :
    (v : ℕ) (vs : List ℕ) (u : ℕ) → reports (insert_uid v vs) u ≡ (v == u || reports vs u)
unfolding reports insert_uid
reports-insert_uid v [] u = refl
reports-insert_uid v (w ∷ ws) u = ground (arith, reports-insert_uid v ws u)

reports-sort_uids : (vs : List ℕ) (u : ℕ) → reports (sort_uids vs) u ≡ reports vs u
unfolding reports sort_uids
reports-sort_uids [] u = refl
reports-sort_uids (v ∷ vs) u =
    reports-insert_uid v (sort_uids vs) u ∙ ap (λ b. v == u || b) (reports-sort_uids vs u)

reports-expunged_since :
    (log : List (ℕ × ℕ)) (v ms since u : ℕ)
    → reports (expunged_since (log ++ (v, ms) ∷ []) since) u
      ≡ (reports (expunged_since log since) u || (if ltb since ms then v == u else false))
unfolding reports expunged_since
reports-expunged_since [] v ms since u = ground arith
reports-expunged_since ((w, ns) ∷ log) v ms since u =
    ground (arith, reports-expunged_since log v ms since u)

-- A UID that is reported has vanished, and was given out.
reported-IsGone :
    (ms : List Message) (uid_next highest since : ℕ) (log : List (ℕ × ℕ)) (u : ℕ)
    → All (IsGone ms uid_next highest) log
    → reports (expunged_since log since) u ≡ true
    → (u < uid_next) × (holds ms u ≡ false)
unfolding reports expunged_since
reported-IsGone ms n h since [] u gone e = cc
reported-IsGone ms n h since ((v, modseq) ∷ log) u ((below, le, absent), gone) e =
    let same : (v == u) ≡ true → v ≡ u = λ t. ground arith in
    let moved : v ≡ u → holds ms u ≡ false = λ t. ap (λ w. holds ms w) (sym t) ∙ absent in
    ground (arith, reported-IsGone ms n h since log u gone)

-- What the client that last saw `since` is told of the message `u`: it is there, and not reported, or it
-- is reported, and no longer there.
abbrev pub IsTold : Mailbox → ℕ → ℕ → Type 0
IsTold mb since u =
    ((holds mb.messages u ≡ true) × (reports (vanished_since mb since) u ≡ false))
    ⊎ ((holds mb.messages u ≡ false) × (reports (vanished_since mb since) u ≡ true))

step-IsTold :
    (mb : Mailbox) (op : Op) (since u : ℕ)
    → HasRoom mb
    → IsWellFormed mb
    → since ≤ mb.highest_modseq
    → IsTold mb since u
    → IsTold (step mb op) since u × (since ≤ (step mb op).highest_modseq)
unfolding step vanished_since
step-IsTold mb (append_op raw flags date) since u room (rising, older, gone) le told =
    let m = new_message mb.uid_next flags date (mb.highest_modseq + 1) raw in
    let now = holds-append mb.messages m u in
    let sorted = reports-sort_uids (expunged_since mb.expunged since) u in
    let bound =
      reported-IsGone mb.messages mb.uid_next mb.highest_modseq since mb.expunged u gone in
    rw (step, append_lem mb raw flags date room) (ground arith)
step-IsTold mb (remove_op i) since u room wf le told =
    elim (Option-cases (get_elem? mb.messages i)) [
      | inl e ↦ (let same = remove_at-none mb i e in rw (step, same) (told, le))
      | inr (m, e) ↦
          (let now = holds-remove 0 mb.messages i m u wf.0 e in
            let log = reports-expunged_since mb.expunged m.uid (mb.highest_modseq + 1) since u in
            let before = reports-sort_uids (expunged_since mb.expunged since) u in
            let after =
              reports-sort_uids
                (expunged_since (mb.expunged ++ (m.uid, mb.highest_modseq + 1) ∷ []) since) u in
            rw (step, remove_at_lem mb i m room e) (ground arith))
    ]

-- The counters do not wrap within so many operations.
abbrev pub HasRoomFor : ℕ → Mailbox → Type 0
HasRoomFor n mb = (mb.uid_next + n < 2 ^ 32) × (mb.highest_modseq + n < 2 ^ 64)

step-HasRoomFor :
    (mb : Mailbox) (op : Op) (n : ℕ) → HasRoomFor (suc n) mb → HasRoomFor n (step mb op)
unfolding step
step-HasRoomFor mb (append_op raw flags date) n room =
    rw (step, append_lem mb raw flags date (omega arith)) (omega arith)
step-HasRoomFor mb (remove_op i) n room = elim (Option-cases (get_elem? mb.messages i)) [
  | inl e ↦ (let same = remove_at-none mb i e in rw (step, same) (omega arith))
  | inr (m, e) ↦ rw (step, remove_at_lem mb i m (omega arith) e) (omega arith)
]

unfoldable pub run : Mailbox → List Op → Mailbox
run mb [] = mb
run mb (op ∷ ops) = run (step mb op) ops

run-IsTold :
    (mb : Mailbox) (ops : List Op) (since u : ℕ)
    → HasRoomFor (length ops) mb
    → IsWellFormed mb
    → since ≤ mb.highest_modseq
    → IsTold mb since u
    → IsTold (run mb ops) since u
unfolding run
run-IsTold mb [] since u room wf le told = told
run-IsTold mb (op ∷ ops) since u room wf le told =
    let (told', le') = step-IsTold mb op since u (omega arith) wf le told in
    run-IsTold (step mb op) ops since u (step-HasRoomFor mb op (length ops) room)
      (step-IsWellFormed mb op (omega arith) wf) le' told'

nothing_new :
    (ms : List Message) (uid_next highest since : ℕ) (log : List (ℕ × ℕ)) (u : ℕ)
    → All (IsGone ms uid_next highest) log
    → highest ≤ since
    → reports (expunged_since log since) u ≡ false
unfolding reports expunged_since
nothing_new ms n h since [] u gone le = refl
nothing_new ms n h since ((v, modseq) ∷ log) u (g, gone) le =
    let (below, before, absent) = g in ground (arith, nothing_new ms n h since log u gone le)

-- A client that saw a message of a well-formed mailbox, and comes back with the modification sequence
-- of that time after any appends and removals for which the counters have room: if the message is gone,
-- `vanished_since` reports its UID, and if it is there, it does not.
pub vanished_since-run :
    (mb : Mailbox) (ops : List Op) (u : ℕ)
    → HasRoomFor (length ops) mb
    → IsWellFormed mb
    → holds mb.messages u ≡ true
    → IsTold (run mb ops) mb.highest_modseq u
unfolding vanished_since
vanished_since-run mb ops u room (rising, older, gone) here =
    let quiet =
      reports-sort_uids (expunged_since mb.expunged mb.highest_modseq) u
      ∙ nothing_new mb.messages mb.uid_next mb.highest_modseq mb.highest_modseq mb.expunged u gone
          (omega arith) in
    run-IsTold mb ops mb.highest_modseq u room (rising, older, gone) (omega arith)
      (inl (here, quiet))
