-- ===== src/Receiver/PeerRepair/Owned.antt =====
-- The datagrams that a source receiver sends to its peers.
use site_repair_cast.Common.{
  if-both, ◌||◌, not, ◌^◌, refl, zero, ◌∙◌, suc, ap, ◌*◌, ◌==◌, ◌+◌, Result, ◌≤◌, arith, ◌≢◌,
  get_or, ◌≡◌, [], ◌<◌, ℕ, ◌∷◌, ◌++◌, All, List, true, false, ok, err,
}
use site_repair_cast.FileIo.{block_bytes, slice, read_block, Contents}
use site_repair_cast.Protocol.Control.Backfill.{PeerRepairTaskMessage}
use site_repair_cast.Protocol.Packet.{payload_limit}
use site_repair_cast.Protocol.Section.{section_id_for_block}
use site_repair_cast.Proxy.Repair.Round.Packets.{read_block-DataFits, repair_view}
use site_repair_cast.Receiver.Datagram.Delivery.{block_packet-Carries}
use site_repair_cast.Receiver.Datagram.Integrity.{Carries, Agrees}
use site_repair_cast.Receiver.Datagram.Validity.{IsValid}
use site_repair_cast.Receiver.Machine.{call_output, Machine, PeerDatagram, System}
use site_repair_cast.Receiver.Machine.Keeps.{Keeps, if-Keeps, lift-Keeps, bind-Keeps, lifted-Keeps}
use site_repair_cast.Receiver.PeerRepair.{
  has_section, send_peer_udp_packet, execute_peer_repair_task, send_peer_blocks, send_peer_block,
  peer_packet, may_send,
}
use site_repair_cast.Receiver.State.{TransferState}

-- A datagram of a block that the source has, of the section of the task.
pub record IsOwned (source : Contents) (s : TransferState) (task : PeerRepairTaskMessage)
    (sent : PeerDatagram) : Type 0 where
  pub block_id : ℕ
  pub inside : block_id < s.meta.total_blocks
  pub owned : get_or s.received block_id 0 ≢ 0
  pub in_section : section_id_for_block block_id s.meta.section_block_count ≡ ok task.section_id
  pub encoded : peer_packet s task block_id ≡ ok sent.packet
  pub carries : Carries source sent.packet
  pub to_target : (sent.ipv4 ≡ task.target_ipv4) × (sent.port ≡ task.target_port)

All-snoc :
    {A : Type 0} (P : A → Type 0) (xs : List A) (x : A) → All P xs → P x → All P (xs ++ (x ∷ []))
All-snoc P [] x h p = (p, tt)
All-snoc P (y ∷ ys) x h p = (h.0, All-snoc P ys x h.1 p)

slice-ext :
    (f g : Contents) (offset n : ℕ)
    → ((i : ℕ) → offset ≤ i → i < offset + n → f i ≡ g i)
    → slice f offset n ≡ slice g offset n
slice-ext f g offset zero same = refl
slice-ext f g offset (suc n) same =
    ap (λ (b : ℕ). b ∷ slice f (offset + 1) n) (same offset (omega arith) (omega arith))
    ∙ ap (◌∷◌ (g offset))
        (slice-ext f g (offset + 1) n (λ i low high. same i (omega arith) (omega arith)))

section_found :
    (r : Result ℕ) (t : ℕ)
    → elim r [ ok section_id ↦ section_id == t | err _ ↦ false ] ≡ true
    → r ≡ ok t
section_found (ok section_id) t h = ap ok {x = section_id} (ground arith)
section_found (err e) t h = absurd cc

-- The block that a source reads is the block of the file.
read_block-source :
    (source : Contents) (s : TransferState) (block_id : ℕ)
    → IsValid s
    → Agrees source s
    → block_id < s.meta.total_blocks
    → get_or s.received block_id 0 ≢ 0
    → (read_block s.output s.meta.file_size block_id).payload
      ≡ (read_block source s.meta.file_size block_id).payload
unfolding read_block
read_block-source source s block_id v a inside owned =
    slice-ext s.output source (block_id * payload_limit) (block_bytes s.meta.file_size block_id)
      (λ i low high. a block_id i owned (
        low,
        omega (arith, high),
        omega (arith, high, v.consistent.not_over, v.consistent.file_fits),
      ))

module _ (sys : System) (source : Contents) (s : TransferState) (task : PeerRepairTaskMessage) where
  may_send-section :
      (block_id : ℕ)
      → may_send s task block_id ≡ true
      → (block_id < s.meta.total_blocks)
        × (get_or s.received block_id 0 ≢ 0)
        × (section_id_for_block block_id s.meta.section_block_count ≡ ok task.section_id)
  unfolding may_send
  may_send-section block_id h =
      (ground arith, ground arith, section_found _ task.section_id (ground arith))

  peer_packet-Carries :
      (block_id : ℕ) (packet : List ℕ)
      → IsValid s
      → Agrees source s
      → task.transfer_id < 2 ^ 64
      → task.section_id < 2 ^ 32
      → block_id < s.meta.total_blocks
      → get_or s.received block_id 0 ≢ 0
      → peer_packet s task block_id ≡ ok packet
      → Carries source packet
  unfolding peer_packet read_block
  peer_packet-Carries block_id packet v a id section inside owned e =
      let view = repair_view s.output s.meta.file_size task.transfer_id task.section_id block_id in
      block_packet-Carries source view packet s.meta.file_size
        (read_block-DataFits s.output s.meta.file_size task.transfer_id task.section_id block_id id
          section (omega (arith, v.consistent.count_fits)))
        e refl (read_block-source source s block_id v a inside owned)

  abbrev pub AllOwned : Machine → Type 0
  AllOwned w = All (IsOwned source s task) w.peer_sent

  owned_block :
      (block_id : ℕ)
      → IsValid s
      → Agrees source s
      → task.transfer_id < 2 ^ 64
      → task.section_id < 2 ^ 32
      → Keeps AllOwned (send_peer_block sys s task block_id)
  unfolding send_peer_block send_peer_udp_packet call_output
  owned_block block_id v a id section =
      if-Keeps (not (may_send s task block_id)) (λ _. lift-Keeps _)
        (λ may.
          let (inside, owned, there) = may_send-section block_id (ground arith) in
          bind-Keeps (record { keep = λ w h. h })
            (λ _. lifted-Keeps (peer_packet s task block_id) (λ packet e. record {
              keep = λ w h. if-both AllOwned (sys.fails w.calls) h (
                  All-snoc (IsOwned source s task) w.peer_sent _ h (record {
                    block_id = block_id;
                    inside = inside;
                    owned = owned;
                    in_section = there;
                    encoded = e;
                    carries = peer_packet-Carries block_id packet v a id section inside owned e;
                    to_target = (refl, refl);
                  }));
            })))

  owned_blocks :
      (block_ids : List ℕ)
      → IsValid s
      → Agrees source s
      → task.transfer_id < 2 ^ 64
      → task.section_id < 2 ^ 32
      → Keeps AllOwned (send_peer_blocks sys s task block_ids)
  unfolding send_peer_blocks
  owned_blocks [] v a id section = lift-Keeps _
  owned_blocks (block_id ∷ block_ids) v a id section =
      bind-Keeps (owned_block block_id v a id section) (λ _. owned_blocks block_ids v a id section)

  -- For a valid transfer whose marked blocks hold the bytes of `source` and a task whose ids are
  -- within their C++ types, every datagram that the task adds goes to the task's target and is the
  -- packet of a block of the file that the receiver has, in the section of the task, and carries
  -- bytes of `source`.
  pub execute_peer_repair_task-IsOwned :
      (w : Machine)
      → IsValid s
      → Agrees source s
      → task.transfer_id < 2 ^ 64
      → task.section_id < 2 ^ 32
      → AllOwned w
      → AllOwned (execute_peer_repair_task sys s task w).1
  unfolding execute_peer_repair_task
  execute_peer_repair_task-IsOwned w v a id section h =
      (if-Keeps {I = AllOwned}
          (not (task.transfer_id == s.meta.common.transfer_id)
            || s.awaiting_complete_ack
            || s.final_sha_failed
            || task.target_port == 0
            || not (has_section s task.section_id))
          (λ _. lift-Keeps _) (λ _. owned_blocks task.block_ids v a id section)).keep
        w h
