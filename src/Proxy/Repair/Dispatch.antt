-- ===== src/Proxy/Repair/Dispatch.antt =====
-- The dispatch of `re_to_re`: tasks for the sources of a plan, and the fallback for the rest.
-- `delivers k` says whether the control connection takes the frame of task `k`.
pub mod Handled
pub mod Pairs
use site_repair_cast.Common.{
  [], drop, false, zero, length, take, ◌&&◌, ◌>>=◌, ltb, ◌∷◌, suc, ◌+◌, if◌then◌else◌, ok, Result,
  ◌++◌, Bool, List, ℕ,
}
use site_repair_cast.Protocol.Control.Backfill.{
  peer_block_limit, encode_peer_repair_task, PeerRepairTaskMessage,
}
use site_repair_cast.Proxy.Connection.{Address}
use site_repair_cast.Proxy.Repair.Plan.{is_empty, update}
use site_repair_cast.Receiver.State.{u64}

-- `kMinPeerBlocks`.
abbrev pub min_peer_blocks : ℕ
min_peer_blocks = 16

-- A task that the source has got, for the receiver of index `target`.
pub record SentTask : Type 0 where
  pub source : ℕ
  pub target : ℕ
  pub task : PeerRepairTaskMessage

-- `tasks` has the latest task first.
pub record Repairs : Type 0 where
  pub fallback : ℕ → List ℕ
  pub control_open : ℕ → Bool
  pub task_sequence : ℕ
  pub tasks : List SentTask

abbrev pub add_fallback : Repairs → ℕ → List ℕ → Repairs
add_fallback d target blocks = record d {
  fallback = update d.fallback target (d.fallback target ++ blocks);
}

module _ (delivers : ℕ → Bool) (address : ℕ → Address) (transfer_id section_id round_id : ℕ) where
  abbrev pub task_of : ℕ → ℕ → List ℕ → PeerRepairTaskMessage
  task_of task_id target blocks = record {
    transfer_id = transfer_id;
    section_id = section_id;
    round_id = round_id;
    task_id = task_id;
    target_ipv4 = (address target).ipv4;
    target_port = (address target).port;
    block_ids = blocks;
  }

  -- `send_receiver_frame` closes the connection of the source when it fails.
  unfoldable pub send_task : ℕ → ℕ → List ℕ → Repairs → Result Repairs
  send_task source target blocks d =
      let task = task_of (u64 (d.task_sequence + 1)) target blocks in
      encode_peer_repair_task task >>= λ frame. ok (
        if d.control_open source && delivers task.task_id
        then record d {
          task_sequence = task.task_id;
          tasks = record { source = source; target = target; task = task } ∷ d.tasks;
        }
        else add_fallback
            (record d {
              task_sequence = task.task_id;
              control_open = update d.control_open source false;
            })
            target blocks)

  -- `fuel` bounds the rounds of the loop over the chunks.
  unfoldable pub send_chunks : ℕ → ℕ → ℕ → List ℕ → Repairs → Result Repairs
  unfolding send_task
  send_chunks zero source target blocks d = ok d
  send_chunks (suc fuel) source target [] d = ok d
  send_chunks (suc fuel) source target (b ∷ blocks) d =
      send_task source target (take peer_block_limit (b ∷ blocks)) d
      >>= send_chunks fuel source target (drop peer_block_limit (b ∷ blocks))

  unfoldable pub dispatch_pair : (ℕ → ℕ → List ℕ) → ℕ → ℕ → Repairs → Result Repairs
  unfolding send_chunks
  dispatch_pair peer_plan source target d =
      let blocks = peer_plan source target in
      if is_empty blocks
      then ok d
      else if ltb (length blocks) min_peer_blocks
      then ok (add_fallback d target blocks)
      else send_chunks (length blocks) source target blocks d

  -- The inner loop, with `left` targets to go.
  unfoldable pub dispatch_targets : ℕ → (ℕ → ℕ → List ℕ) → ℕ → ℕ → Repairs → Result Repairs
  unfolding dispatch_pair
  dispatch_targets zero peer_plan source target d = ok d
  dispatch_targets (suc left) peer_plan source target d =
      dispatch_pair peer_plan source target d
      >>= dispatch_targets left peer_plan source (target + 1)

  -- The outer loop over `n` receivers, with `left` sources to go.
  unfoldable pub dispatch_sources : ℕ → ℕ → (ℕ → ℕ → List ℕ) → ℕ → Repairs → Result Repairs
  unfolding dispatch_targets
  dispatch_sources n zero peer_plan source d = ok d
  dispatch_sources n (suc left) peer_plan source d =
      dispatch_targets n peer_plan source 0 d >>= dispatch_sources n left peer_plan (source + 1)
