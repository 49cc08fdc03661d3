-- ===== src/Receiver/Machine.antt =====
-- The state that src/receiver.cpp keeps between two events, its directory included, and the
-- functions that call the system.
pub mod Keeps
pub mod Leads
pub mod Paths
use site_repair_cast.Common.{
  true, [], ◌∷◌, false, ◌++◌, ◌==◌, ◌||◌, send_failed, ◌&&◌, not, ◌+◌, none, save_failed,
  sync_failed, if◌then◌else◌, some, err, Bool, List, Error, ok, Result, Option, ℕ,
}
use site_repair_cast.FileIo.{Contents}
use site_repair_cast.Receiver.State.{DrainState, TransferState}
use site_repair_cast.Stream.Frames.{frame_bytes}

-- A file of the output directory: what `read` sees of it, and what is on the disk since the last
-- `fsync` or `fdatasync`.
pub record StoredFile : Type 0 where
  pub size : ℕ
  pub contents : Contents
  pub durable : Contents

-- What `save_receiver_state` writes, as the values that stand in the text.
pub record SavedState : Type 0 where
  pub transfer_id : ℕ
  pub file_size : ℕ
  pub total_blocks : ℕ
  pub section_block_count : ℕ
  pub file_name : List ℕ
  pub sha256 : List ℕ
  pub received_count : ℕ
  pub received : List ℕ

-- A datagram of `send_peer_udp_packet`, with its destination.
pub record PeerDatagram : Type 0 where
  pub ipv4 : ℕ
  pub port : ℕ
  pub packet : List ℕ

-- An output path is its file name, a temporary or state path its file name and transfer. While a
-- temporary file is open, its contents are the `output` of the transfer and `durable` here, and
-- `parts` does not have it. `calls` numbers the system calls.
pub record Machine : Type 0 where
  pub transfer : Option TransferState
  pub output_open : Bool
  pub durable : Contents
  pub drain : DrainState
  pub stop_requested : Bool
  pub outputs : List ℕ → Option StoredFile
  pub parts : List ℕ → ℕ → Option StoredFile
  pub states : List ℕ → ℕ → Option SavedState
  pub sent : List (List ℕ)
  pub peer_sent : List PeerDatagram
  pub calls : ℕ

-- What the code takes from outside: which system calls fail, and the digest of a file's bytes.
pub record System : Type 0 where
  pub fails : ℕ → Bool
  pub sha256 : List ℕ → List ℕ

abbrev pub Action {ℓ} : Type ℓ → Type ℓ
Action A = Machine → Result A × Machine

abbrev pub and_then {ℓ κ} :
    {A : Type ℓ} {B : Type κ} → Result A × Machine → (A → Action B) → Result B × Machine
and_then (ok a, w) next = next a w
and_then (err e, w) next = (err e, w)

infixl 5 ◌>>=◌ ◌>>◌
unfoldable pub ◌>>=◌ {ℓ κ} : {A : Type ℓ} {B : Type κ} → Action A → (A → Action B) → Action B
◌>>=◌ m next w = and_then (m w) next

abbrev pub ◌>>◌ {ℓ κ} : {A : Type ℓ} {B : Type κ} → Action A → Action B → Action B
m >> next = m >>= λ _. next

abbrev pub return {ℓ} : {A : Type ℓ} → A → Action A
return a w = (ok a, w)

abbrev pub throw {ℓ} : {A : Type ℓ} → Error → Action A
throw e w = (err e, w)

abbrev pub lift {ℓ} : {A : Type ℓ} → Result A → Action A
lift r w = (r, w)

abbrev pub modify : (Machine → Machine) → Action (Unit {0})
modify f w = (ok tt, f w)

abbrev pub put_transfer : TransferState → Action (Unit {0})
put_transfer s = modify (λ w. record w { transfer = some s })

-- A call of the system that may fail.
unfoldable pub call : System → Error → Action (Unit {0})
call sys e w = (if sys.fails w.calls then err e else ok tt, record w { calls = w.calls + 1 })

-- A call on the descriptor of the temporary file, which fails once it is closed.
unfoldable pub call_output : System → Error → Action (Unit {0})
call_output sys e w = (
  if not w.output_open || sys.fails w.calls then err e else ok tt,
  record w { calls = w.calls + 1 },
)

abbrev pub same_name : List ℕ → List ℕ → Bool
same_name [] [] = true
same_name [] (y ∷ ys) = false
same_name (x ∷ xs) [] = false
same_name (x ∷ xs) (y ∷ ys) = x == y && same_name xs ys

abbrev pub at_name {ℓ} : {A : Type ℓ} → List ℕ → A → (List ℕ → A) → List ℕ → A
at_name name a f name' = if same_name name name' then a else f name'

abbrev pub at_transfer {ℓ} : {A : Type ℓ} → List ℕ → ℕ → A → (List ℕ → ℕ → A) → List ℕ → ℕ → A
at_transfer name id a f name' id' = if same_name name name' && id == id' then a else f name' id'

-- `send_control_frame`. A frame that is sent in part is not one of `sent`.
unfoldable pub send_frame : System → List ℕ → Action (Unit {0})
unfolding call
send_frame sys frame = do
  lift (frame_bytes frame)
  call sys send_failed
  modify (λ w. record w { sent = w.sent ++ (frame ∷ []) })

-- `fsync` or `fdatasync` of the temporary file.
unfoldable pub sync_output : System → TransferState → Action (Unit {0})
unfolding call_output
sync_output sys s = do call_output sys sync_failed; modify (λ w. record w { durable = s.output })

abbrev pub saved_of : TransferState → SavedState
saved_of s = record {
  transfer_id = s.meta.common.transfer_id;
  file_size = s.meta.file_size;
  total_blocks = s.meta.total_blocks;
  section_block_count = s.meta.section_block_count;
  file_name = s.meta.file_name;
  sha256 = s.meta.sha256;
  received_count = s.received_count;
  received = s.received;
}

-- `save_receiver_state`: the write of the `.tmp` file, and the rename over the state file.
unfoldable pub save_receiver_state : System → TransferState → Action (Unit {0})
unfolding call
save_receiver_state sys s = do
  call sys save_failed
  call sys save_failed
  modify (λ w. record w {
    states = at_transfer s.meta.file_name s.meta.common.transfer_id (some (saved_of s)) w.states;
  })

-- `output.reset(-1)`: the file goes back to the directory.
abbrev pub close_output : TransferState → Machine → Machine
close_output s w = if not w.output_open then w else record w {
  output_open = false;
  parts =
      at_transfer s.meta.file_name s.meta.common.transfer_id
        (some (record { size = s.meta.file_size; contents = s.output; durable = w.durable }))
        w.parts;
}

-- `transfer.reset()`.
abbrev pub reset_transfer : TransferState → Machine → Machine
reset_transfer s w = record (close_output s w) { transfer = none }
