-- ===== src/Cdev/Command/Ioctl.antt =====
-- user/nfpcore/nfp_cpp_dev_ops.c: `nfp_cpp_dev_ioctl`. A structure is read and sent as its bytes.
use nfp_udp_echo.Base.{
  ℕ, ◌-◌, ◌^◌, Bool, false, not, List, ◌++◌, leb, ◌==◌, length, take, drop, if◌then◌else◌,
}
use nfp_udp_echo.Socket.{short, Proc, read, write}
use nfp_udp_echo.Socket.Words.{to_le, of_le, write_word}
use nfp_udp_echo.Cdev.{
  AreaRequest, Area, Result, success, etxtbsy, enomem, einval, enoent, ebusy, AreaCalls,
  do_cpp_area_request, do_cpp_area_release,
}

-- The requests of user/nfpcore/nfp_ioctl.h, as `_IOW` and `_IOWR` give them.
abbrev pub identification : ℕ
identification = 0x40046e8f

abbrev pub area_request : ℕ
area_request = 0xc0206e80

abbrev pub area_release : ℕ
area_release = 0x40206e81

abbrev pub expl_request : ℕ
expl_request = 0x40a86e82

-- `struct nfp_cpp_identification`, of five `uint32_t`
pub record Identification : Type 0 where
  pub size : ℕ
  pub model : ℕ
  pub interface : ℕ
  pub serial_lo : ℕ
  pub serial_hi : ℕ

-- What the library knows of the chip; the serial number by its two parts.
pub record Chip : Type 0 where
  pub model : ℕ
  pub interface : ℕ
  pub serial_hi : ℕ
  pub serial_lo : ℕ

unfoldable pub do_cpp_identification : Chip → Identification → Identification
do_cpp_identification chip ident = record {
  size =
      if leb 20 ident.size
      then 20
      else if leb 12 ident.size
      then 12
      else if leb 8 ident.size
      then 8
      else 4;
  model = if leb 8 ident.size then chip.model else ident.model;
  interface = if leb 12 ident.size then chip.interface else ident.interface;
  serial_lo = if leb 20 ident.size then chip.serial_lo else ident.serial_lo;
  serial_hi = if leb 20 ident.size then chip.serial_hi else ident.serial_hi;
}

-- The bytes of a structure of `size` bytes of which the first are overwritten.
abbrev pub overwrite : ℕ → List ℕ → List ℕ → List ℕ
overwrite size bytes old = take size (bytes ++ drop (length bytes) old)

-- The `n` bytes at `at` of a structure, as a number.
abbrev pub field : List ℕ → ℕ → ℕ → ℕ
field bytes at n = of_le (take n (drop at bytes))

abbrev pub identification_of : List ℕ → Identification
identification_of bytes = record {
  size = field bytes 0 4;
  model = field bytes 4 4;
  interface = field bytes 8 4;
  serial_lo = field bytes 12 4;
  serial_hi = field bytes 16 4;
}

abbrev pub identification_bytes : Identification → List ℕ
identification_bytes i =
    to_le 4 i.size
    ++ (to_le 4 i.model ++ (to_le 4 i.interface ++ (to_le 4 i.serial_lo ++ to_le 4 i.serial_hi)))

-- `struct nfp_cpp_area_request`, of 32 bytes with four of padding
abbrev pub area_request_of : List ℕ → AreaRequest
area_request_of bytes = record {
  offset = field bytes 0 8;
  cpp_id = field bytes 8 4;
  cpp_addr = field bytes 16 8;
  size = field bytes 24 8;
}

-- `(uint64_t) err`
abbrev pub result_word : Result → ℕ
result_word success = 0
result_word etxtbsy = 2 ^ 64 - 26
result_word enomem = 2 ^ 64 - 12
result_word einval = 2 ^ 64 - 22
result_word enoent = 2 ^ 64 - 2
result_word ebusy = 2 ^ 64 - 16

module _ {ℓ} {A : Type ℓ} (chip : Chip) (calls : AreaCalls) (old : List ℕ) (areas : List Area)
    (done : Bool → List Area → Proc A) where
  -- A word and a structure sent, each with its test.
  unfoldable pub send_result : ℕ → List ℕ → List Area → Proc A
  send_result word bytes areas' = write_word word (λ r.
      if short r 8
      then done false areas'
      else write bytes (λ r'. done (not (short r' (length bytes))) areas'))

  unfoldable pub ioctl_identification : Proc A
  unfolding send_result do_cpp_identification
  ioctl_identification = read 4 (λ r bytes.
      if short r 4
      then done false areas
      else send_result 20
          (identification_bytes
            (do_cpp_identification chip (identification_of (overwrite 20 bytes old))))
          areas)

  unfoldable pub ioctl_area_request : Proc A
  unfolding send_result
  ioctl_area_request = read 32 (λ r bytes.
      let req = overwrite 32 bytes old in
      let (err, area_req, areas') =
        do_cpp_area_request calls chip.interface (area_request_of req) areas in
      if short r 32
      then done false areas
      else send_result (result_word err) (to_le 8 area_req.offset ++ drop 8 req) areas')

  unfoldable pub ioctl_area_release : Proc A
  ioctl_area_release = read 32 (λ r bytes.
      let (err, areas') = do_cpp_area_release (area_request_of (overwrite 32 bytes old)) areas in
      if short r 32
      then done false areas
      else write_word (result_word err) (λ r'. done (not (short r' 8)) areas'))

  -- `do_cpp_expl_request` refuses every request.
  unfoldable pub ioctl_expl_request : Proc A
  unfolding send_result
  ioctl_expl_request = read 168 (λ r bytes.
      if short r 168
      then done false areas
      else send_result (result_word einval) (overwrite 168 bytes old) areas)

  unfoldable pub nfp_cpp_dev_ioctl : ℕ → Proc A
  unfolding ioctl_identification ioctl_area_request ioctl_area_release ioctl_expl_request
  nfp_cpp_dev_ioctl request =
      if request == identification
      then ioctl_identification
      else if request == area_request
      then ioctl_area_request
      else if request == area_release
      then ioctl_area_release
      else if request == expl_request
      then ioctl_expl_request
      else done false areas
