-- ===== src/Common/Errors.antt =====
-- `std::runtime_error` as a value. The constructors are the messages that the modelled code throws.
use mathlib.Core.Bool.{Bool, true, false}
use mathlib.Core.Path.{◌≡◌, refl}

pub data Error : Type 0 where
  truncated_packet invalid_file_name invalid_magic unsupported_version invalid_type : Error
  invalid_size unexpected_type invalid_code payload_too_large invalid_payload_size : Error
  bitmap_too_large invalid_bitmap_length invalid_block_count invalid_block_list : Error
  bitmap_index_out_of_range zero_section_block_count section_id_out_of_range : Error
  invalid_frame_size invalid_registration : Error
  receive_failed read_failed unexpected_eof write_failed no_progress : Error
  open_failed truncate_failed sync_failed rename_failed save_failed send_failed : Error
  insufficient_space no_active_section invalid_received_file_name path_components : Error
  unsupported_section unsupported_block_size inconsistent_block_count : Error
  file_name_mismatch another_transfer_active initialize_failed : Error

pub data Result {ℓ} (A : Type ℓ) : Type ℓ where
  err : Error → Result A
  ok : A → Result A

-- `if(!test)throw`.
abbrev pub check : Bool → Error → Result (Unit {0})
check true thrown = ok tt
check false thrown = err thrown

infixl 5 ◌>>=◌ ◌>>◌
abbrev pub ◌>>=◌ {ℓ κ} : {A : Type ℓ} {B : Type κ} (r : Result A) → (A → Result B) → Result B
err thrown >>= next = err thrown
ok value >>= next = next value

abbrev pub ◌>>◌ {ℓ} : {B : Type ℓ} (r : Result (Unit {0})) → Result B → Result B
first >> second = first >>= λ _. second

pub ok_injective {ℓ} : {A : Type ℓ} {a b : A} → ◌≡◌ {A = Result A} (ok a) (ok b) → a ≡ b
ok_injective h = cc

-- What a chain that does not throw has gone through.
pub bind_ok {ℓ κ} :
    {A : Type ℓ} {B : Type κ} (m : Result A) (f : A → Result B) (b : B)
    → m >>= f ≡ ok b
    → (a : A) × m ≡ ok a × f a ≡ ok b
bind_ok (err e) f b h = absurd cc
bind_ok (ok a) f b h = (a, refl, h)
