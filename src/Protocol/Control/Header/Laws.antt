-- ===== src/Protocol/Control/Header/Laws.antt =====
-- The file name field, written and read.
use mathlib.Core.List.{append-nil, append_assoc}
use site_repair_cast.Common.{
  ℕ, ◌%◌, ◌^◌, ◌≡◌, true, not, ◌&&◌, leb, ◌==◌, List, ◌++◌, length, length-append, arith, ok,
}
use site_repair_cast.Protocol.Bytes.Laws.{get_u16-put_u16, leb-self_add, get_bytes-append}
use site_repair_cast.Protocol.Control.Header.{
  file_name_limit, is_valid_file_name, write_file_name, read_file_name,
}

pub read_file_name_lem :
    (name rest : List ℕ)
    → is_valid_file_name name ≡ true
    → read_file_name (write_file_name name ++ rest) ≡ ok (name, rest)
unfolding read_file_name
read_file_name_lem name rest h =
    let fits : length name % 2 ^ 16 ≡ length name = ground arith in
    let tested : (not (length name == 0) && leb (length name) file_name_limit) ≡ true = h in
    simp (
      append-nil, append_assoc, get_u16-put_u16, fits, tested, length-append, leb-self_add,
      get_bytes-append,
    )
