-- ===== src/Proxy/Repair/Plan.antt =====
-- The planning loop of `re_to_re` over the blocks of a section. `has i l` says that receiver `i`
-- can send local block `l`; the tables are functions of the receivers' indices.
pub mod Choice
pub mod Steps
pub mod Sources
pub mod Cover
use site_repair_cast.Common.{
  ltb, length, ◌&&◌, ◌+◌, leb, ◌++◌, not, Option, ◌==◌, Bool, if◌then◌else◌, List, ℕ, [], ◌∷◌, zero,
  suc, ok, err, true, false, none, some,
}
use site_repair_cast.Protocol.Section.{u32}

-- `kMulticastRepairThreshold`, `kMaxPeerTargetsPerSource`.
abbrev pub multicast_threshold : ℕ
multicast_threshold = 2

abbrev pub max_peer_targets : ℕ
max_peer_targets = 2

pub record Plan : Type 0 where
  pub peer_plan : ℕ → ℕ → List ℕ
  pub fallback : ℕ → List ℕ
  pub source_target_count : ℕ → ℕ
  pub multicast : List ℕ

abbrev pub update {ℓ} : {A : Type ℓ} → (ℕ → A) → ℕ → A → ℕ → A
update f i v k = if k == i then v else f k

abbrev pub is_empty : List ℕ → Bool
is_empty [] = true
is_empty (x ∷ xs) = false

-- The first index from `i` on that passes the test, as the two loops with `break` look for it.
unfoldable pub find_from : ℕ → ℕ → (ℕ → Bool) → Option ℕ
find_from zero i test = none
find_from (suc left) i test =
    let rest = find_from left (i + 1) test in if test i then some i else rest

abbrev pub assign : Plan → ℕ → ℕ → ℕ → Plan
assign plan source target block_id = record plan {
  peer_plan =
      update plan.peer_plan source
        (update (plan.peer_plan source) target (plan.peer_plan source target ++ (block_id ∷ [])));
}

module _ (has : ℕ → ℕ → Bool) where
  -- A source that already serves the target, and one that may take on another target.
  abbrev pub serves : Plan → ℕ → ℕ → ℕ → Bool
  serves plan local_block target i =
      not (i == target) && not (is_empty (plan.peer_plan i target)) && has i local_block

  abbrev pub may_serve : Plan → ℕ → ℕ → ℕ → Bool
  may_serve plan local_block target i =
      not (i == target) && ltb (plan.source_target_count i) max_peer_targets && has i local_block

module _ (has : ℕ → ℕ → Bool) (n first_block : ℕ) where
  unfoldable pub plan_target : Plan → ℕ → ℕ → Plan
  plan_target plan local_block target =
      let block_id = u32 (first_block + local_block) in
      elim (find_from n 0 (serves has plan local_block target)) [
        | some source ↦ assign plan source target block_id
        | none ↦ elim (find_from n 0 (may_serve has plan local_block target)) [
          | some source ↦
              assign
                (record plan {
                  source_target_count =
                      update plan.source_target_count source (plan.source_target_count source + 1);
                })
                source target block_id
          | none ↦ record plan {
            fallback = update plan.fallback target (plan.fallback target ++ (block_id ∷ []));
          }
        ]
      ]

  unfoldable pub plan_targets : Plan → ℕ → List ℕ → Plan
  unfolding plan_target
  plan_targets plan local_block [] = plan
  plan_targets plan local_block (target ∷ targets) =
      plan_targets (plan_target plan local_block target) local_block targets

  unfoldable pub plan_block : Plan → ℕ → List ℕ → Plan
  unfolding plan_targets
  plan_block plan local_block targets =
      if leb multicast_threshold (length targets)
      then record plan { multicast = plan.multicast ++ (u32 (first_block + local_block) ∷ []) }
      else plan_targets plan local_block targets

  unfoldable pub plan_blocks : Plan → ℕ → List (List ℕ) → Plan
  unfolding plan_block
  plan_blocks plan local_block [] = plan
  plan_blocks plan local_block (targets ∷ rows) =
      plan_blocks (plan_block plan local_block targets) (local_block + 1) rows

abbrev pub empty_plan : Plan
empty_plan = record {
  peer_plan = λ source target. [];
  fallback = λ target. [];
  source_target_count = λ source. 0;
  multicast = [];
}
