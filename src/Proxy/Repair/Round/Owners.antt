-- ===== src/Proxy/Repair/Round/Owners.antt =====
-- The receivers that `re_to_re` takes for a source of a block.
use site_repair_cast.Common.{
  refl, err, arith, inr, not, inl, Result, ◌⊎◌, Option-cases, ◌&&◌, false, ◌+◌, ◌||◌, true, some,
  ◌==◌, ◌≡◌, ok, ℕ, List, Bool,
}
use site_repair_cast.Protocol.Bitmap.{bitmap_test}
use site_repair_cast.Protocol.Control.Receiver.{
  SectionStatusCode, SectionStatusMessage, section_status_code, missing, complete,
}
use site_repair_cast.Protocol.Section.{u32}
use site_repair_cast.Proxy.Connection.{is_active, ReceiverConnection}
use site_repair_cast.Proxy.Repair.Missing.{source_has_block, unmarked}
use site_repair_cast.Proxy.Repair.Round.{receiver_at, has_block}
use site_repair_cast.Proxy.Status.{is_missing}

-- The report of the last round says that the whole section is there, or has no mark for the block
-- among its bits.
pub record Reports (transfer_id section_id round_id local_block : ℕ) (m : SectionStatusMessage)
    : Type 0 where
  pub transfer : m.transfer_id ≡ transfer_id
  pub section : m.section_id ≡ section_id
  pub round : u32 (m.round_id + 1) ≡ round_id
  pub present :
      (m.status ≡ complete)
      ⊎ ((m.status ≡ missing) × (bitmap_test m.missing_bitmap local_block ≡ ok false))

-- Receiver `i` is connected, takes part in the round, and has reported that it has the block.
pub record Owns (receivers : List ReceiverConnection)
    (transfer_id section_id round_id i local_block : ℕ) : Type 0 where
  pub receiver : ReceiverConnection
  pub report : SectionStatusMessage
  pub there : receiver_at receivers i ≡ some receiver
  pub connected : receiver.control_open ≡ true
  pub not_completed : receiver.completed ≡ false
  pub not_isolated : receiver.isolated ≡ false
  pub not_abandoned : receiver.abandoned ≡ false
  pub reported : receiver.status ≡ some report
  pub says : Reports transfer_id section_id round_id local_block report

unmarked-clear :
    (bitmap : List ℕ) (local_block : ℕ)
    → unmarked bitmap local_block ≡ true
    → bitmap_test bitmap local_block ≡ ok false
unmarked-clear bitmap local_block =
    elim (bitmap_test bitmap local_block)
      as (λ (r : Result Bool).
        elim r as (λ _. Bool) [ ok b ↦ not b | err _ ↦ false ] ≡ true → r ≡ ok false) [
          | ok true ↦ λ h. absurd cc
          | ok false ↦ λ h. refl
          | err e ↦ λ h. absurd cc
        ]

present_lem :
    (status : SectionStatusCode) (bitmap : List ℕ) (local_block : ℕ)
    → (section_status_code status == 2
        || (section_status_code status == 1 && unmarked bitmap local_block))
      ≡ true
    → (status ≡ complete) ⊎ ((status ≡ missing) × (bitmap_test bitmap local_block ≡ ok false))
present_lem missing bitmap local_block h = inr (refl, unmarked-clear bitmap local_block h)
present_lem complete bitmap local_block h = inl refl
present_lem _ bitmap local_block h = absurd cc

tested_says :
    (transfer_id section_id round_id local_block : ℕ) (r : ReceiverConnection)
    (m : SectionStatusMessage)
    → r.status ≡ some m
    → source_has_block transfer_id section_id round_id r local_block ≡ true
    → Reports transfer_id section_id round_id local_block m
unfolding source_has_block
tested_says transfer_id section_id round_id local_block r m e h =
    let says : (is_active r
          && r.control_open
          && r.status_received
          && (m.transfer_id == transfer_id
              && m.section_id == section_id
              && u32 (m.round_id + 1) == round_id
              && (section_status_code m.status == 2
                  || (is_missing m.status && unmarked m.missing_bitmap local_block))))
        ≡ true =
      rw e at h in
    record {
      transfer = ground (arith, says);
      section = ground (arith, says);
      round = ground (arith, says);
      present = present_lem m.status m.missing_bitmap local_block (ground (arith, says));
    }

-- A receiver that the test takes owns the block.
pub has_block-Owns :
    (receivers : List ReceiverConnection) (transfer_id section_id round_id i local_block : ℕ)
    → has_block receivers transfer_id section_id round_id i local_block ≡ true
    → Owns receivers transfer_id section_id round_id i local_block
unfolding has_block source_has_block
has_block-Owns receivers transfer_id section_id round_id i local_block h =
    elim (Option-cases (receiver_at receivers i)) [
      | inl e ↦ let nobody : false ≡ true = rw (e, has_block) at h in absurd cc
      | inr (r, e) ↦
          let tested : source_has_block transfer_id section_id round_id r local_block ≡ true =
            rw (e, has_block) at h in
          elim (Option-cases r.status) [
            | inl e' ↦ absurd (grind (arith, e', tested))
            | inr (m, e') ↦ (record {
              receiver = r;
              report = m;
              there = e;
              connected = ground (arith, tested);
              not_completed = ground (arith, tested);
              not_isolated = ground (arith, tested);
              not_abandoned = ground (arith, tested);
              reported = e';
              says = tested_says transfer_id section_id round_id local_block r m e' tested;
            })
          ]
    ]
