-- ===== src/Proxy/Repair/Round/Sends.antt =====
-- The datagrams of `re_to_re`, when no read of the file and no datagram fails.
use native.Mathlib.Decide.{ℕ_discrete}
use site_repair_cast.Common.{
  inr, ◌∙◌, inl, ap, ◌>>=◌, zero, suc, refl, ◌<◌, [], ◌+◌, arith, none, ◌≤◌, ◌∷◌, ◌==◌, false, ◌&&◌,
  some, ◌⊎◌, ◌≡◌, true, ◌||◌, ok, ℕ, List, Bool, Option, Result,
}
use site_repair_cast.Proxy.Repair.Blocks.{occurs, occurs-append}
use site_repair_cast.Proxy.Repair.Round.{
  Outbox, send_block, send_blocks, send_fallback, add_datagram,
}

-- The block has gone to the receiver.
abbrev pub sent_to : Outbox → ℕ → ℕ → Bool
sent_to out target b = occurs b out.multicast || occurs b (out.unicast target)

abbrev pub reaches : Option ℕ → ℕ → Bool
reaches none target = true
reaches (some destination) target = target == destination

-- The result is no error, and has what was sent before and what is wanted.
pub record Sends (out : Outbox) (wanted : ℕ → ℕ → Type 0) (r : Result Outbox) : Type 0 where
  pub final : Outbox
  pub returned : r ≡ ok final
  pub kept : (t b : ℕ) → sent_to out t b ≡ true → sent_to final t b ≡ true
  pub done : (t b : ℕ) → wanted t b → sent_to final t b ≡ true

Sends-bind :
    (out : Outbox) (first second wanted : ℕ → ℕ → Type 0) (r : Result Outbox)
    (k : Outbox → Result Outbox)
    → ((t b : ℕ) → wanted t b → first t b ⊎ second t b)
    → Sends out first r
    → ((out' : Outbox) → Sends out' second (k out'))
    → Sends out wanted (r >>= k)
Sends-bind out first second wanted r k split h g =
    let h' = g h.final in
    record {
      final = h'.final;
      returned = ap (λ (r : Result Outbox). r >>= k) h.returned ∙ h'.returned;
      kept = λ t b old. h'.kept t b (h.kept t b old);
      done = λ t b w. elim (split t b w) [
        | inl now ↦ h'.kept t b (h.done t b now)
        | inr later ↦ h'.done t b later
      ];
    }

sent_to-add_datagram :
    (destination : Option ℕ) (block_id : ℕ) (out : Outbox) (t b : ℕ)
    → sent_to (add_datagram destination block_id out) t b
      ≡ (sent_to out t b || (reaches destination t && b == block_id))
sent_to-add_datagram none block_id out t b =
    ground (arith, occurs-append b out.multicast (block_id ∷ []))
sent_to-add_datagram (some destination) block_id out t b =
    ground (arith, occurs-append b (out.unicast destination) (block_id ∷ []))

module _ (fails : ℕ → Bool) (works : (k : ℕ) → fails k ≡ false) where
  send_block-Sends :
      (destination : Option ℕ) (block_id : ℕ) (out : Outbox)
      → Sends out
          (λ t b. (reaches destination t && b == block_id) ≡ true)
          (send_block fails destination block_id out)
  unfolding send_block
  send_block-Sends destination block_id out =
      let added = sent_to-add_datagram destination block_id out in
      record {
        final = record (add_datagram destination block_id out) { calls = out.calls + 2 };
        returned = rw (works out.calls, works (out.calls + 1)) refl;
        kept = λ t b old. grind (arith, added t b, old);
        done = λ t b now. grind (arith, added t b, now);
      }

  pub send_blocks-Sends :
      (destination : Option ℕ) (block_ids : List ℕ) (out : Outbox)
      → Sends out
          (λ t b. (reaches destination t && occurs b block_ids) ≡ true)
          (send_blocks fails destination block_ids out)
  unfolding send_blocks
  send_blocks-Sends destination [] out = record {
    final = out;
    returned = refl;
    kept = λ t b old. old;
    done = λ t b now. ground (arith, now);
  }
  send_blocks-Sends destination (block_id ∷ block_ids) out =
      Sends-bind out _ _ _ _ _ (λ t b now. grind (arith, now))
        (send_block-Sends destination block_id out) (send_blocks-Sends destination block_ids)

  -- The receivers from `target` on, `left` of them.
  pub send_fallback-Sends :
      (left target : ℕ) (fallback : ℕ → List ℕ) (out : Outbox)
      → Sends out
          (λ t b. (target ≤ t) × (t < target + left) × (occurs b (fallback t) ≡ true))
          (send_fallback fails left target fallback out)
  unfolding send_fallback
  send_fallback-Sends zero target fallback out = record {
    final = out;
    returned = refl;
    kept = λ t b old. old;
    done = λ t b (lo, hi, now). absurd (omega arith);
  }
  send_fallback-Sends (suc left) target fallback out =
      Sends-bind out _ _ _ _ _
        (λ t b (lo, hi, now). (elim (ℕ_discrete t target) [
          | yes same ↦ inl (grind (arith, now, same))
          | no other ↦ inr (omega arith, omega arith, now)
        ]))
        (send_blocks-Sends (some target) (fallback target) out)
        (send_fallback-Sends left (target + 1) fallback)
