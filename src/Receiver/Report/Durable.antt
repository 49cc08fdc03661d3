-- ===== src/Receiver/Report/Durable.antt =====
-- The state file and the bytes on the disk over the reports.
use mathlib.Core.Path.{subst}
use site_repair_cast.Common.{
  refl, ◌||◌, arith, ◌+◌, Result, if-cases, if◌then◌else◌, some_injective, not, sym, ◌∙◌,
  sync_failed, Option, ap, ◌≢◌, send_failed, Error, get_or, ◌≡◌, ℕ, List, true, none, some,
}
use site_repair_cast.FileIo.{Contents}
use site_repair_cast.Protocol.Packet.{MetaPacket}
use site_repair_cast.Receiver.Datagram.Integrity.{Agrees, InBlock}
use site_repair_cast.Receiver.Datagram.Validity.{Open}
use site_repair_cast.Receiver.Machine.{
  StoredFile, saved_of, SavedState, save_receiver_state, sync_output, put_transfer, send_frame,
  call_output, call, Machine, System, ◌>>◌,
}
use site_repair_cast.Receiver.Machine.Keeps.{Keeps, lift-Keeps, bind-Keeps}
use site_repair_cast.Receiver.Machine.Leads.{
  Ends, weaker-Leads, kept_to-Leads, Leads, bind-Leads, kept-Leads,
}
use site_repair_cast.Receiver.Machine.Paths.{at_transfer_same}
use site_repair_cast.Receiver.State.{TransferState}

abbrev pub IsMarked : List ℕ → ℕ → Type 0
IsMarked received b = get_or received b 0 ≢ 0

-- The durable bytes of a file under its temporary name, or else under its final name.
abbrev pub stored_bytes : Option StoredFile → Option StoredFile → Contents
stored_bytes (some part) output = part.durable
stored_bytes none (some output) = output.durable
stored_bytes none none = λ _. 0

-- What a crash would leave of the bytes of a transfer, whether its descriptor is open or closed.
abbrev pub disk_of : MetaPacket → Machine → Contents
disk_of m w =
    if w.output_open
    then w.durable
    else stored_bytes (w.parts m.file_name m.common.transfer_id) (w.outputs m.file_name)

-- The blocks that the state file of `s` marks are marked in `s`, and their bytes are on the disk.
abbrev pub SavedIsDurable : Contents → TransferState → Machine → Type 0
SavedIsDurable source s w =
    (saved : SavedState)
    → w.states s.meta.file_name s.meta.common.transfer_id ≡ some saved
    → (b : ℕ) → IsMarked saved.received b
    → IsMarked s.received b
      × ((i : ℕ) → InBlock s.meta.file_size b i → disk_of s.meta w i ≡ source i)

-- The transfer in the machine differs from `s` in what reports and rounds change at most.
abbrev pub SameFile : TransferState → TransferState → Type 0
SameFile s s' = (s'.meta ≡ s.meta) × (s'.received ≡ s.received) × (s'.output ≡ s.output)

abbrev pub At : Contents → TransferState → Machine → Type 0
At source s w = Open (SameFile s) w.transfer × SavedIsDurable source s w

-- What a crash at any time leaves room for.
abbrev pub IsCrashSafe : Contents → Machine → Type 0
IsCrashSafe source w = Open (λ s. Agrees source s × SavedIsDurable source s w) w.transfer

-- The marked blocks of `s` are on the disk.
abbrev pub Synced : Contents → TransferState → Machine → Type 0
Synced source s w =
    (b i : ℕ) → IsMarked s.received b → InBlock s.meta.file_size b i → disk_of s.meta w i ≡ source i

pub SameFile-IsCrashSafe :
    (source : Contents) (s s' : TransferState) (w : Machine)
    → SameFile s s'
    → Agrees source s
    → SavedIsDurable source s w
    → Agrees source s' × SavedIsDurable source s' w
SameFile-IsCrashSafe source s s' w (same_meta, same_marks, same_output) a d = (
  (λ b i marked inside.
      ap (λ (f : Contents). f i) same_output
      ∙ a b i (λ e. marked (ap (λ (r : List ℕ). get_or r b 0) same_marks ∙ e))
          (subst (λ (m : MetaPacket). InBlock m.file_size b i) same_meta inside)),
  (λ saved e b marked.
      let (mine, there) =
        d saved
          (ap (λ (m : MetaPacket). w.states m.file_name m.common.transfer_id) (sym same_meta) ∙ e) b
          marked in
      (
        (λ e'. mine (ap (λ (r : List ℕ). get_or r b 0) (sym same_marks) ∙ e')),
        (λ i inside.
            ap (λ (m : MetaPacket). disk_of m w i) same_meta
            ∙ there i (subst (λ (m : MetaPacket). InBlock m.file_size b i) same_meta inside)),
      )),
)

pub At-IsCrashSafe :
    (source : Contents) (s : TransferState) (w : Machine)
    → Agrees source s
    → At source s w
    → IsCrashSafe source w
At-IsCrashSafe source s w a (same, d) = at w.transfer same
  where
    at :
        (transfer : Option TransferState)
        → Open (SameFile s) transfer
        → Open (λ s. Agrees source s × SavedIsDurable source s w) transfer
    at none same = tt
    at (some s') same = SameFile-IsCrashSafe source s s' w same a d

pub disk_of_open : (m : MetaPacket) (w : Machine) → w.output_open ≡ true → disk_of m w ≡ w.durable
disk_of_open m w opened = rw opened refl

module _ (sys : System) (source : Contents) where
  pub call-At : (s : TransferState) (e : Error) → Keeps (At source s) (call sys e)
  unfolding call
  call-At s e = record { keep = λ w h. h }

  pub call_output-At : (s : TransferState) (e : Error) → Keeps (At source s) (call_output sys e)
  unfolding call_output
  call_output-At s e = record { keep = λ w h. h }

  pub send_frame-At :
      (s : TransferState) (frame : List ℕ) → Keeps (At source s) (send_frame sys frame)
  unfolding send_frame
  send_frame-At s frame =
      bind-Keeps (lift-Keeps _)
        (λ _. bind-Keeps (call-At s send_failed) (λ _. record { keep = λ w h. h }))

  pub put-At : (s s' : TransferState) → SameFile s s' → Keeps (At source s) (put_transfer s')
  put-At s s' same = record { keep = λ w h. (same, h.1) }

  -- The call has not failed, so that the descriptor is open.
  call_output-open :
      (s : TransferState) (e : Error)
      → Leads
          (At source s)
          (λ w. At source s w × (w.output_open ≡ true))
          (At source s)
          (call_output sys e)
  unfolding call_output
  call_output-open s e = record {
    lead = λ w h.
        if-cases
          (λ (r : Result (Unit {0})).
            Ends (λ w. At source s w × (w.output_open ≡ true)) (At source s)
              (r, record w { calls = w.calls + 1 }))
          (not w.output_open || sys.fails w.calls) (λ _. h) (λ works. (h, ground (arith, works)));
  }

  -- `fdatasync` puts what is marked on the disk.
  sync_open-At :
      (s : TransferState)
      → Agrees source s
      → Leads
          (At source s)
          (λ w. (At source s w × Synced source s w) × (w.output_open ≡ true))
          (At source s)
          (sync_output sys s)
  unfolding sync_output
  sync_open-At s a = bind-Leads (call_output-open s sync_failed) (λ _. record {
    lead = λ w (h, opened).
        let there : disk_of s.meta (record w { durable = s.output }) ≡ s.output =
          disk_of_open s.meta (record w { durable = s.output }) opened in
        let now : Synced source s (record w { durable = s.output }) =
          (λ b i marked inside. ap (λ (f : Contents). f i) there ∙ a b i marked inside) in
        (
          (
            (
              h.0,
              (λ saved e b marked.
                  let mine = (h.1 saved e b marked).0 in (mine, (λ i inside. now b i mine inside))),
            ),
            now,
          ),
          opened,
        );
  })

  pub sync-At :
      (s : TransferState)
      → Agrees source s
      → Leads
          (At source s)
          (λ w. At source s w × Synced source s w)
          (At source s)
          (sync_output sys s)
  sync-At s a = weaker-Leads (sync_open-At s a) (λ w h. h.0)

  pub sync_only-At :
      (s : TransferState)
      → Agrees source s
      → Leads
          (At source s)
          (λ w. At source s w × (w.output_open ≡ true))
          (At source s)
          (sync_output sys s)
  sync_only-At s a = weaker-Leads (sync_open-At s a) (λ w h. (h.0.0, h.1))

  -- The state file that is written then marks what is on the disk.
  pub save-At :
      (s : TransferState)
      → Leads
          (λ w. At source s w × Synced source s w)
          (At source s)
          (At source s)
          (save_receiver_state sys s)
  unfolding save_receiver_state call
  save-At s =
      bind-Leads
        (kept-Leads {I = λ w. At source s w × Synced source s w} (record { keep = λ w h. h })
          (λ w h. h.0))
        (λ _.
          bind-Leads
            (kept-Leads {I = λ w. At source s w × Synced source s w} (record { keep = λ w h. h })
              (λ w h. h.0))
            (λ _. record {
              lead = λ w h. (
                h.0.0,
                (λ saved e. saved_now w h.1 saved (
                    sym (
                      at_transfer_same s.meta.file_name s.meta.common.transfer_id
                        (some (saved_of s)) w.states)
                    ∙ e)),
              );
            }))
    where
      saved_now :
          (w : Machine)
          → Synced source s w
          → (saved : SavedState) → some (saved_of s) ≡ some saved
          → (b : ℕ) → IsMarked saved.received b
          → IsMarked s.received b
            × ((i : ℕ) → InBlock s.meta.file_size b i → disk_of s.meta w i ≡ source i)
      saved_now w synced saved e b marked =
          let same : s.received ≡ saved.received =
            ap (λ (o : SavedState). o.received) (some_injective e) in
          let mine : IsMarked s.received b =
            (λ e'. marked (ap (λ (r : List ℕ). get_or r b 0) (sym same) ∙ e')) in
          (mine, (λ i inside. synced b i mine inside))

  pub sync_save-At :
      (s : TransferState)
      → Agrees source s
      → Keeps (At source s) (sync_output sys s >> save_receiver_state sys s)
  sync_save-At s a = kept_to-Leads (bind-Leads (sync-At s a) (λ _. save-At s))
