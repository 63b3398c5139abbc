-- ===== src/Mote/FileTests.antt =====
-- Runs of the spool and of attachments of crates/kotva-core/src/mote.rs.
use dmtap.Prelude.{◌+◌, ◌*◌, ◌≤◌, ◌≡◌, ◌↔◌, refl, arith, ascii, [], ◌∷◌, none, some}
use dmtap.Result.{ok}
use dmtap.Mote.File.{
  Attachment, check_delivery_tier, mechanism_fits, is_inline, classify, validate_durability,
  durable, validate_terms, origin_hold, new_spool, admit_bytes, admit_total, checked_add,
}
use dmtap.Mote.FileLaws.{after_offers, admitted, after_offers-new_spool}

after_offers-new_spool_example :
    ((after_offers (new_spool 100) (60 ∷ 50 ∷ 30 ∷ [])).used
      ≡ admitted (new_spool 100) (60 ∷ 50 ∷ 30 ∷ []))
    × ((after_offers (new_spool 100) (60 ∷ 50 ∷ 30 ∷ [])).used ≤ 100)
    × (((admit_bytes (after_offers (new_spool 100) (60 ∷ 50 ∷ 30 ∷ [])) 10).0 ≡ ok tt)
        ↔ (admitted (new_spool 100) (60 ∷ 50 ∷ 30 ∷ []) + 10 ≤ 100))
after_offers-new_spool_example = after_offers-new_spool 100 10 (60 ∷ 50 ∷ 30 ∷ []) (omega arith)

admits : admitted (new_spool 100) (60 ∷ 50 ∷ 30 ∷ []) ≡ 90
unfolding admitted new_spool admit_bytes admit_total checked_add
admits = refl

abbrev picture : Attachment
picture = record {
  name = ascii "a";
  mime = ascii "image/png";
  size = 3;
  inline = some (1 ∷ 2 ∷ 3 ∷ []);
  manifest = none;
  key = [];
}

picture_passes : check_delivery_tier picture ≡ ok tt
unfolding check_delivery_tier mechanism_fits is_inline classify
picture_passes = refl

-- 30 MiB declared, and one byte by the reference, without a contract.
abbrev film : Attachment
film = record picture {
  size = 30 * 1024 * 1024;
  inline = none;
  manifest = some (record { id = record { bytes = [] }; size = 1; chunks = 1; durability = none });
}

film_passes : check_delivery_tier film ≡ ok tt
unfolding check_delivery_tier mechanism_fits is_inline classify validate_durability durable
film_passes = refl

-- An origin-hold contract with a term and replicas.
stray_terms_pass :
    validate_terms
      (record { class = origin_hold; retention = some 9; replicas = some 0; holder_hint = none })
    ≡ ok tt
unfolding validate_terms
stray_terms_pass = refl
