-- ===== src/Proxy/Repair/Missing/Table.antt =====
-- The table that `aggregate_missing_blocks` makes.
use mathlib.Core.Path.{subst}
use native.Mathlib.Decide.{ℕ_discrete}
use site_repair_cast.Common.{
  some_injective, not, sym, ok, All, ◌*◌, ◌≤◌, length-replicate, replicate, true, ◌++◌,
  Option-cases, if◌then◌else◌, none, some, zero, ◌∙◌, inr, inl, Bool-cases, arith, refl, ◌+◌, ◌==◌,
  ◌-◌, suc, ◌||◌, ◌&&◌, ap, [], leb, ◌∷◌, get_or, false, ◌≡◌, Bool, length, ◌<◌, ℕ, List,
}
use site_repair_cast.Protocol.Bitmap.Laws.{has_bit, bitmap_test-has_bit}
use site_repair_cast.Protocol.Control.Receiver.{missing, SectionStatusCode}
use site_repair_cast.Proxy.Connection.{is_active, ReceiverConnection}
use site_repair_cast.Proxy.Repair.Blocks.{occurs-append, occurs}
use site_repair_cast.Proxy.Repair.Missing.{
  add_reports, add_report, aggregate_missing_blocks, marked, missing_report,
}
use site_repair_cast.Proxy.Status.{is_missing}

-- The table when no bitmap is too short.
mark_rows : ℕ → List ℕ → ℕ → List (List ℕ) → List (List ℕ)
mark_rows receiver_index bitmap local_block [] = []
mark_rows receiver_index bitmap local_block (row ∷ rows) =
    (if marked bitmap local_block then row ++ (receiver_index ∷ []) else row)
    ∷ mark_rows receiver_index bitmap (local_block + 1) rows

mark_table : ℕ → List ReceiverConnection → List (List ℕ) → List (List ℕ)
mark_table index [] table = table
mark_table index (r ∷ rs) table =
    mark_table (index + 1) rs
      (elim (missing_report r) [ none ↦ table | some bitmap ↦ mark_rows index bitmap 0 table ])

missing_table : List ReceiverConnection → ℕ → List (List ℕ)
unfolding mark_table
missing_table receivers section_blocks = mark_table 0 receivers (replicate section_blocks [])

-- Only a report that says so lists missing blocks.
abbrev pub says_missing : SectionStatusCode → Bool
says_missing missing = true
says_missing _ = false

-- Whether receiver `i`, which has neither completed nor been isolated or abandoned, has reported
-- that blocks are missing, with local block `j` marked. Its control connection may be closed.
abbrev pub misses : List ReceiverConnection → ℕ → ℕ → Bool
misses [] i j = false
misses (r ∷ rs) zero j = elim r.status [
  | none ↦ false
  | some m ↦
      not r.completed
      && not r.isolated
      && not r.abandoned
      && says_missing m.status
      && marked m.missing_bitmap j
]
misses (r ∷ rs) (suc i) j = misses rs i j

is_missing_lem : (status : SectionStatusCode) → is_missing status ≡ says_missing status
is_missing_lem missing = refl
is_missing_lem _ = refl

is_missing-missing : (status : SectionStatusCode) → is_missing status ≡ true → status ≡ missing
is_missing-missing missing h = refl
is_missing-missing _ h = absurd cc

misses_lem :
    (r : ReceiverConnection) (rs : List ReceiverConnection) (j : ℕ)
    → misses (r ∷ rs) 0 j
      ≡ elim (missing_report r) as (λ _. Bool) [ none ↦ false | some bitmap ↦ marked bitmap j ]
unfolding missing_report
misses_lem r rs j = elim (Option-cases r.status) [
  | inl e ↦ rw e refl
  | inr (m, e) ↦ rw (e, is_missing_lem m.status) (ground arith)
]

occurs_marked :
    (i index : ℕ) (row : List ℕ) (set : Bool)
    → occurs i (if set then row ++ (index ∷ []) else row) ≡ (occurs i row || (i == index && set))
occurs_marked i index row true = ground (arith, occurs-append i row (index ∷ []))
occurs_marked i index row false = ground arith

get_or-mark_rows :
    (index : ℕ) (bitmap : List ℕ) (local_block : ℕ) (table : List (List ℕ)) (i j : ℕ)
    → j < length table
    → occurs i (get_or (mark_rows index bitmap local_block table) j [])
      ≡ (occurs i (get_or table j []) || (i == index && marked bitmap (local_block + j)))
unfolding mark_rows
get_or-mark_rows index bitmap local_block [] i j h = absurd (omega arith)
get_or-mark_rows index bitmap local_block (row ∷ rows) i zero h =
    occurs_marked i index row (marked bitmap local_block)
    ∙ ap (λ k. occurs i row || (i == index && marked bitmap k)) (omega arith)
get_or-mark_rows index bitmap local_block (row ∷ rows) i (suc j) h =
    get_or-mark_rows index bitmap (local_block + 1) rows i j (omega arith)
    ∙ ap (λ k. occurs i (get_or rows j []) || (i == index && marked bitmap k)) (omega arith)

length-mark_rows :
    (index : ℕ) (bitmap : List ℕ) (local_block : ℕ) (table : List (List ℕ))
    → length (mark_rows index bitmap local_block table) ≡ length table
unfolding mark_rows
length-mark_rows index bitmap local_block [] = refl
length-mark_rows index bitmap local_block (row ∷ rows) =
    ap suc (length-mark_rows index bitmap (local_block + 1) rows)

-- The reports of the receivers from `index` on, along the table.
abbrev misses_from : ℕ → List ReceiverConnection → ℕ → ℕ → Bool
misses_from index rs i j = leb index i && misses rs (i - index) j

misses_from-head :
    (index : ℕ) (r : ReceiverConnection) (rs : List ReceiverConnection) (i j : ℕ)
    → misses_from index (r ∷ rs) i j
      ≡ ((i == index && misses (r ∷ []) 0 j) || misses_from (index + 1) rs i j)
misses_from-head index r rs i j = elim (ℕ_discrete i index) [
  | yes same ↦
      let first : i - index ≡ 0 = omega arith in
      ground (arith, same, ap (λ k. misses (r ∷ rs) k j) first)
  | no other ↦ elim (Bool-cases (leb index i)) [
    | inl late ↦
        let next : i - index ≡ suc (i - (index + 1)) = ground (arith, other, late) in
        ground (arith, other, late, ap (λ k. misses (r ∷ rs) k j) next)
    | inr early ↦ ground (arith, other, early)
  ]
]

bool_facts :
    (a b c d x m u : Bool) → a ≡ (b || (x && m)) → u ≡ m → d ≡ ((x && u) || c) → (a || c) ≡ (b || d)
bool_facts a b c d x m u row said head = ground (arith, row, said, head)

get_or-mark_table :
    (index : ℕ) (rs : List ReceiverConnection) (table : List (List ℕ)) (i j : ℕ)
    → j < length table
    → occurs i (get_or (mark_table index rs table) j [])
      ≡ (occurs i (get_or table j []) || misses_from index rs i j)
unfolding mark_table
get_or-mark_table index [] table i j h = ground arith
get_or-mark_table index (r ∷ rs) table i j h =
    let head = misses_from-head index r rs i j in
    elim (Option-cases (missing_report r)) [
      | inl e ↦
          let quiet : misses (r ∷ []) 0 j ≡ false = misses_lem r [] j ∙ rw e refl in
          rw e (get_or-mark_table (index + 1) rs table i j h ∙ grind (arith, head, quiet))
      | inr (bitmap, e) ↦
          let said : misses (r ∷ []) 0 j ≡ marked bitmap j = misses_lem r [] j ∙ rw e refl in
          let row : occurs i (get_or (mark_rows index bitmap 0 table) j [])
              ≡ (occurs i (get_or table j []) || (i == index && marked bitmap j)) =
            get_or-mark_rows index bitmap 0 table i j h
            ∙ ap (λ k. occurs i (get_or table j []) || (i == index && marked bitmap k))
                (omega arith) in
          rw e (
            get_or-mark_table (index + 1) rs (mark_rows index bitmap 0 table) i j
              (omega (arith, length-mark_rows index bitmap 0 table))
            ∙ bool_facts _ _ _ _ _ _ _ row said head)
    ]

occurs_nothing : (i j n : ℕ) → occurs i (get_or (replicate n []) j []) ≡ false
occurs_nothing i j zero = refl
occurs_nothing i zero (suc n) = refl
occurs_nothing i (suc j) (suc n) = occurs_nothing i j n

missing_table-misses :
    (receivers : List ReceiverConnection) (section_blocks i j : ℕ)
    → j < section_blocks
    → occurs i (get_or (missing_table receivers section_blocks) j []) ≡ misses receivers i j
unfolding missing_table
missing_table-misses receivers section_blocks i j h =
    get_or-mark_table 0 receivers (replicate section_blocks []) i j
      (omega (arith, length-replicate {A = List ℕ} section_blocks []))
    ∙ grind (
      arith,
      occurs_nothing i j section_blocks,
      ap (λ k. misses receivers k j) {x = i - 0} {y = i},
    )

-- The bitmap of a report of a receiver that takes part has a bit for each block of the section.
abbrev pub Covers : ℕ → ReceiverConnection → Type 0
Covers section_blocks r = elim r.status [
  | none ↦ Unit {0}
  | some m ↦
      (m.status ≡ missing
        → r.completed ≡ false
        → r.isolated ≡ false
        → r.abandoned ≡ false
        → section_blocks ≤ 8 * length m.missing_bitmap)
]

missing_report-Covers :
    (section_blocks : ℕ) (r : ReceiverConnection) (bitmap : List ℕ)
    → missing_report r ≡ some bitmap
    → Covers section_blocks r
    → section_blocks ≤ 8 * length bitmap
unfolding missing_report
missing_report-Covers section_blocks r bitmap e covered = elim (Option-cases r.status) [
  | inl e' ↦ let silent : none ≡ some bitmap = rw e' at e in absurd cc
  | inr (m, e') ↦
      let reads : (if is_active r && is_missing m.status then some m.missing_bitmap else none)
          ≡ some bitmap =
        rw e' at e in
      let long : m.status ≡ missing
          → r.completed ≡ false
          → r.isolated ≡ false
          → r.abandoned ≡ false
          → section_blocks ≤ 8 * length m.missing_bitmap =
        rw (e', Covers) at covered in
      elim (Bool-cases (is_active r && is_missing m.status)) [
        | inl listed ↦
            let same : m.missing_bitmap ≡ bitmap = some_injective (rw listed at reads) in
            subst (λ (b : List ℕ). section_blocks ≤ 8 * length b) same
              (long (is_missing-missing m.status (ground (arith, listed))) (ground (arith, listed))
                (ground (arith, listed)) (ground (arith, listed)))
        | inr quiet ↦ let silent : none ≡ some bitmap = rw quiet at reads in absurd cc
      ]
]

add_report-mark_rows :
    (index : ℕ) (bitmap : List ℕ) (local_block : ℕ) (table : List (List ℕ))
    → local_block + length table ≤ 8 * length bitmap
    → add_report index bitmap local_block table ≡ ok (mark_rows index bitmap local_block table)
unfolding add_report mark_rows
add_report-mark_rows index bitmap local_block [] h = refl
add_report-mark_rows index bitmap local_block (row ∷ rows) h =
    let inside = bitmap_test-has_bit bitmap local_block (omega arith) in
    let read : marked bitmap local_block ≡ has_bit bitmap local_block = rw (inside, marked) in
    rw (inside, add_report-mark_rows index bitmap (local_block + 1) rows (omega arith))
      (ap
        (λ (set : Bool). ok (
          (if set then row ++ (index ∷ []) else row)
          ∷ mark_rows index bitmap (local_block + 1) rows))
        (sym read))

add_reports-mark_table :
    (index : ℕ) (rs : List ReceiverConnection) (table : List (List ℕ))
    → All (Covers (length table)) rs
    → add_reports index rs table ≡ ok (mark_table index rs table)
unfolding add_reports mark_table
add_reports-mark_table index [] table h = refl
add_reports-mark_table index (r ∷ rs) table h = elim (Option-cases (missing_report r)) [
  | inl e ↦ rw e (add_reports-mark_table (index + 1) rs table h.1)
  | inr (bitmap, e) ↦
      let long : length table ≤ 8 * length bitmap =
        missing_report-Covers (length table) r bitmap e h.0 in
      let read = add_report-mark_rows index bitmap 0 table (omega (arith, long)) in
      let size = length-mark_rows index bitmap 0 table in
      rw (e, read)
        (add_reports-mark_table (index + 1) rs (mark_rows index bitmap 0 table)
          (subst (λ n. All (Covers n) rs) (sym size) h.1))
]

-- If the bitmap of every receiver that has reported missing blocks, and has neither completed nor
-- been isolated or abandoned, has a bit for each block of the section, the table is made without an
-- error, and a receiver stands in the row of a block exactly when it is such a receiver and its
-- report marks the block.
pub aggregate_missing_blocks_lem :
    (receivers : List ReceiverConnection) (section_blocks : ℕ)
    → All (Covers section_blocks) receivers
    → (table : List (List ℕ)) × (aggregate_missing_blocks receivers section_blocks ≡ ok table)
      × ((i j : ℕ) → j < section_blocks → occurs i (get_or table j []) ≡ misses receivers i j)
unfolding aggregate_missing_blocks missing_table
aggregate_missing_blocks_lem receivers section_blocks covered = (
  missing_table receivers section_blocks,
  add_reports-mark_table 0 receivers (replicate section_blocks []) (
      subst (λ n. All (Covers n) receivers) (sym (length-replicate {A = List ℕ} section_blocks []))
        covered),
  missing_table-misses receivers section_blocks,
)
