-- ===== src/Tests/Machines.antt =====
-- A receiver process with the full transfer of Tests.States open, and with no transfer.
use mathlib.Core.Path.{subst}
use site_repair_cast.Checksum.{crc32}
use site_repair_cast.Checksum.Bounds.{crc32-bound}
use site_repair_cast.Common.{
  some_injective, get_or, ap, ◌^◌, ◌==◌, length, ◌∙◌, arith, ◌<◌, sym, ◌↔◌, ok_injective, ℕ, ◌≡◌,
  List, ◌∷◌, [], replicate, Option, ok, err, some, none, refl, true, false,
}
use site_repair_cast.FileIo.{slice}
use site_repair_cast.Protocol.Bytes.{put_u64, put_u16, put_u32}
use site_repair_cast.Protocol.Control.Backfill.{
  PeerRepairTaskMessage, decode_backfill_data, encode_backfill_data, BackfillDataMessage,
}
use site_repair_cast.Protocol.Control.Backfill.RoundTrip.{decode_backfill_data-encode_backfill_data}
use site_repair_cast.Protocol.Control.Proxy.{decode_file_meta, encode_file_meta, FileMetaMessage}
use site_repair_cast.Protocol.Control.Proxy.RoundTrip.{decode_file_meta-encode_file_meta}
use site_repair_cast.Protocol.Control.Receiver.{encode_meta_ready}
use site_repair_cast.Protocol.Section.{section_first_block, section_block_count}
use site_repair_cast.Receiver.Control.{handle_control_message}
use site_repair_cast.Receiver.Control.CrashSafe.{handle_control_message-IsCrashSafe}
use site_repair_cast.Receiver.Control.Durable.{HonestBackfill}
use site_repair_cast.Receiver.Control.Validity.{SmallFile}
use site_repair_cast.Receiver.Loop.{run, Event, LoopConfig, datagram, timer, frames, hangup}
use site_repair_cast.Receiver.Loop.Validity.{run-IsWellFormed}
use site_repair_cast.Receiver.Machine.{
  save_receiver_state, SavedState, send_frame, reset_transfer, saved_of, at_transfer, call,
  call_output, sync_output, Machine, StoredFile, ◌>>=◌, System,
}
use site_repair_cast.Receiver.Missing.{make_missing_bitmap}
use site_repair_cast.Receiver.PeerRepair.{execute_peer_repair_task}
use site_repair_cast.Receiver.PeerRepair.Owned.{execute_peer_repair_task-IsOwned, AllOwned}
use site_repair_cast.Receiver.Report.{
  report_section, report_active, publish, finish_drain_and_report, finalize_transfer,
}
use site_repair_cast.Receiver.Report.CrashSafe.{finish_drain_and_report-IsCrashSafe}
use site_repair_cast.Receiver.Report.Durable.{SavedIsDurable, IsCrashSafe}
use site_repair_cast.Receiver.Report.Publish.{finalize_transfer-source}
use site_repair_cast.Receiver.Report.Validity.{IsWellFormed}
use site_repair_cast.Receiver.Start.{
  repeat_file_meta, filename_from, count_marks, blocks_match, fits_meta, open_output, load_from,
  load_receiver_state, initialize_transfer, start_transfer, answer_file_meta, on_file_meta,
  safe_received_file_name,
}
use site_repair_cast.Receiver.Start.Names.{safe_received_file_name_iff, PlainName}
use site_repair_cast.Receiver.Start.Resume.{initialize_transfer-saved_of, with_resumed}
use site_repair_cast.Receiver.State.{TransferState}
use site_repair_cast.Receiver.StateFile.{parse_hex_bytes-hex_bytes, hex_bytes, parse_hex_bytes}
use site_repair_cast.Stream.Frames.{frame_bytes}
use site_repair_cast.Tests.States.{
  source, fresh, full, waiting, fresh-IsValid, fresh-IsSound, full-IsSound,
}

abbrev sys : System
sys = record { fails = λ _. false; sha256 = λ _. replicate 32 0xab }

abbrev machine : Option TransferState → Machine
machine transfer = record {
  transfer = transfer;
  output_open = true;
  durable = λ _. 0;
  drain = waiting;
  stop_requested = false;
  outputs = λ _. none;
  parts = λ _ _. none;
  states = λ _ _. none;
  sent = [];
  peer_sent = [];
  calls = 0;
}

machine-IsWellFormed : IsWellFormed (machine (some fresh))
machine-IsWellFormed = (fresh-IsValid, λ name id saved e. absurd cc)

no_state : (s : TransferState) → SavedIsDurable source s (machine (some s))
no_state s saved e = absurd cc

abbrev config : LoopConfig
config = record { udp_port = 9000; peer_udp_port = 9001; initial_drop_blocks = [] }

abbrev backfill : BackfillDataMessage
backfill = record {
  transfer_id = 7;
  block_id = 0;
  offset = 0;
  payload_size = 3;
  crc32 = crc32 (0 ∷ 1 ∷ 2 ∷ []);
  payload = 0 ∷ 1 ∷ 2 ∷ [];
}

abbrev backfill_frame : List ℕ
unfolding encode_backfill_data crc32
backfill_frame = elim (encode_backfill_data backfill) [ ok bytes ↦ bytes | err _ ↦ [] ]

backfill_encoded : encode_backfill_data backfill ≡ ok backfill_frame
unfolding encode_backfill_data crc32 backfill_frame
backfill_encoded = refl

backfill_decoded : decode_backfill_data backfill_frame ≡ ok backfill
backfill_decoded = rw backfill_encoded at (
    decode_backfill_data-encode_backfill_data backfill
      (omega arith, omega arith, omega arith, crc32-bound _, refl, omega arith))

backfill-Honest : HonestBackfill source backfill_frame
backfill-Honest m e passed =
    let same : backfill ≡ m = ok_injective (sym backfill_decoded ∙ e) in
    subst (λ (m : BackfillDataMessage). m.payload ≡ slice source m.offset (length m.payload)) same
      refl

handle_control_message-IsCrashSafe_example :
    IsCrashSafe source (handle_control_message sys 5 backfill_frame (machine (some fresh))).1
handle_control_message-IsCrashSafe_example =
    handle_control_message-IsCrashSafe sys source 5 backfill_frame (machine (some fresh)) fresh refl
      fresh-IsValid backfill-Honest (fresh-IsSound.1, no_state fresh)

-- The full transfer with its state file and its bytes on the disk.
abbrev saved_machine : Machine
saved_machine = record (machine (some full)) {
  durable = source;
  states = at_transfer (0x61 ∷ []) 7 (some (saved_of full)) (λ _ _. none);
}

saved_full : SavedIsDurable source full saved_machine
saved_full saved e b marked = (
  (λ none_there.
      marked
        (ap (λ (o : SavedState). get_or o.received b 0) (sym (some_injective e)) ∙ none_there)),
  (λ i inside. refl),
)

-- The rename over the output path is the sixth call, and fails.
abbrev rename_fails : System
rename_fails = record { fails = λ n. n == 5; sha256 = λ _. replicate 32 0xab }

finish_drain_and_report-IsCrashSafe_example :
    IsCrashSafe source (finish_drain_and_report rename_fails full 2 saved_machine).1
finish_drain_and_report-IsCrashSafe_example =
    finish_drain_and_report-IsCrashSafe rename_fails source full 2 saved_machine full-IsSound.1
      ((refl, refl, refl), saved_full)

-- The descriptor is closed then, and the state file still has its mark.
rename_failed_state :
    ((finish_drain_and_report rename_fails full 2 saved_machine).1.output_open ≡ false)
    × ((finish_drain_and_report rename_fails full 2 saved_machine).1.states (0x61 ∷ []) 7
        ≡ some (saved_of full))
unfolding finish_drain_and_report report_active report_section finalize_transfer sync_output
    save_receiver_state call_output call publish ◌>>=◌ make_missing_bitmap section_block_count
    section_first_block
rename_failed_state = (refl, refl)

finalized : (finalize_transfer sys full (machine (some full))).0 ≡ ok (some (replicate 32 0xab))
unfolding finalize_transfer sync_output call_output call publish ◌>>=◌
finalized = refl

finalize_transfer-source_example :
    (file : StoredFile) × ((finalize_transfer sys full (machine (some full))).1.outputs (0x61 ∷ [])
      ≡ some file)
    × (file.size ≡ 3)
    × ((i : ℕ) → i < 3 → file.durable i ≡ source i)
    × (replicate 32 0xab ≡ full.meta.sha256)
finalize_transfer-source_example =
    finalize_transfer-source sys source full (machine (some full)) (replicate 32 0xab)
      full-IsSound.0 full-IsSound.1 finalized

abbrev task : PeerRepairTaskMessage
task = record {
  transfer_id = 7;
  section_id = 0;
  round_id = 1;
  task_id = 4;
  target_ipv4 = 0x0a00_0001;
  target_port = 9001;
  block_ids = 0 ∷ 5 ∷ [];
}

execute_peer_repair_task-IsOwned_example :
    AllOwned sys source full task (execute_peer_repair_task sys full task (machine (some full))).1
execute_peer_repair_task-IsOwned_example =
    execute_peer_repair_task-IsOwned sys source full task (machine (some full)) full-IsSound.0
      full-IsSound.1 (omega arith) (omega arith) tt

safe_received_file_name_iff_example :
    (safe_received_file_name (0x61 ∷ 0x62 ∷ []) ≡ ok (0x61 ∷ 0x62 ∷ []))
    ↔ PlainName (0x61 ∷ 0x62 ∷ []) (0x61 ∷ 0x62 ∷ [])
safe_received_file_name_iff_example =
    safe_received_file_name_iff (0x61 ∷ 0x62 ∷ []) (0x61 ∷ 0x62 ∷ [])

abbrev message : FileMetaMessage
message = record {
  transfer_id = 7;
  section_id = 0;
  file_size = 3;
  block_size = 1200;
  total_blocks = 1;
  section_block_count = 64;
  file_name = 0x61 ∷ [];
  sha256 = replicate 32 0xab;
}

abbrev file_meta_frame : List ℕ
unfolding encode_file_meta
file_meta_frame = elim (encode_file_meta message) [ ok bytes ↦ bytes | err _ ↦ [] ]

file_meta_encoded : encode_file_meta message ≡ ok file_meta_frame
unfolding encode_file_meta file_meta_frame
file_meta_encoded = refl

file_meta_decoded : decode_file_meta file_meta_frame ≡ ok message
file_meta_decoded = rw file_meta_encoded at (
    decode_file_meta-encode_file_meta message (
      omega arith,
      omega arith,
      omega arith,
      omega arith,
      omega arith,
      omega arith,
      omega arith,
      omega arith,
      refl,
    ))

file_meta-SmallFile : SmallFile file_meta_frame
file_meta-SmallFile m e =
    let same : message ≡ m = ok_injective (sym file_meta_decoded ∙ e) in
    subst (λ (m : FileMetaMessage). m.file_size < 2 ^ 63) same (omega arith)

abbrev events : List Event
events = frames 5 (file_meta_frame ∷ []) ∷ timer ∷ datagram 6 (1 ∷ 2 ∷ []) ∷ hangup ∷ []

run-IsWellFormed_example : IsWellFormed (run config sys events (machine none))
run-IsWellFormed_example =
    run-IsWellFormed config sys events (machine none)
      ((file_meta-SmallFile, tt), (tt, (tt, (tt, tt)))) (tt, λ name id saved e. absurd cc)

abbrev idle_machine : Machine
idle_machine = record (machine none) { output_open = false }

-- `open` is the fourth call, and fails.
abbrev open_fails : System
open_fails = record { fails = λ n. n == 3; sha256 = λ _. replicate 32 0xab }

abbrev half_open : Machine
unfolding on_file_meta answer_file_meta start_transfer initialize_transfer load_receiver_state
    load_from open_output call blocks_match safe_received_file_name filename_from
half_open = (on_file_meta open_fails message idle_machine).1

-- The transfer stays in place without a file, and the next FILE_META is answered META_READY.
half_open_is_ready :
    (half_open.output_open ≡ false)
    × ((on_file_meta sys message half_open).0 ≡ ok tt)
    × (length (on_file_meta sys message half_open).1.sent ≡ 1)
unfolding half_open on_file_meta answer_file_meta start_transfer initialize_transfer
    load_receiver_state load_from open_output call blocks_match safe_received_file_name
    filename_from repeat_file_meta send_frame ◌>>=◌ frame_bytes encode_meta_ready put_u32 put_u16
    put_u64
half_open_is_ready = (refl, refl, refl)

-- A state file that outlived its temporary file.
abbrev leftover : Machine
leftover = record idle_machine {
  states = at_transfer (0x61 ∷ []) 7 (some (saved_of full)) (λ _ _. none);
}

-- The marks, and the byte of the file at offset 1.
abbrev map_marks : Option TransferState → Option (List ℕ × ℕ)
map_marks none = none
map_marks (some s) = some (s.received, s.output 1)

-- FILE_META, a restart, and FILE_META again.
abbrev restarted : Machine
restarted =
    let w = (on_file_meta sys message leftover).1 in
    (on_file_meta sys message (elim w.transfer [ some s ↦ reset_transfer s w | none ↦ w ])).1

stale_marks : map_marks restarted.transfer ≡ some (1 ∷ [], 0)
unfolding on_file_meta answer_file_meta start_transfer initialize_transfer load_receiver_state
    load_from fits_meta count_marks open_output call blocks_match safe_received_file_name
    filename_from send_frame ◌>>=◌ frame_bytes encode_meta_ready put_u32 put_u16 put_u64
stale_marks = refl

parse_hex_bytes-hex_bytes_example :
    parse_hex_bytes (hex_bytes (1 ∷ 0 ∷ 0xaf ∷ [])) ≡ some (1 ∷ 0 ∷ 0xaf ∷ [])
parse_hex_bytes-hex_bytes_example =
    parse_hex_bytes-hex_bytes (1 ∷ 0 ∷ 0xaf ∷ []) (omega arith, (omega arith, (omega arith, tt)))

-- The full transfer after a restart.
abbrev full_part : StoredFile
full_part = record { size = 3; contents = source; durable = source }

abbrev after_restart : Machine
after_restart = record idle_machine {
  parts = at_transfer (0x61 ∷ []) 7 (some full_part) (λ _ _. none);
  states = at_transfer (0x61 ∷ []) 7 (some (saved_of full)) (λ _ _. none);
}

initialize_transfer-saved_of_example :
    initialize_transfer sys full.meta after_restart
    ≡ (ok true, with_resumed sys full full_part after_restart)
initialize_transfer-saved_of_example =
    initialize_transfer-saved_of sys full full_part after_restart full-IsSound.0 (omega arith)
      (omega arith) refl refl refl (λ k. refl)
