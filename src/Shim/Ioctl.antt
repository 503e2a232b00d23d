-- ===== src/Shim/Ioctl.antt =====
-- `ioctl` of shim/interpose.c on the device. A structure is sent and read as its bytes.
use nfp_udp_echo.Base.{ℕ, ◌||◌, Option, none, some, List, [], ltb, ◌==◌, take, if◌then◌else◌}
use nfp_udp_echo.Base.Words.{u32}
use nfp_udp_echo.Socket.{short, Proc, ret, read, write}
use nfp_udp_echo.Socket.Words.{read_word, write_word}
use nfp_udp_echo.Cdev.Command.Ioctl.{
  overwrite, field, identification, area_request, area_release, expl_request,
}
use nfp_udp_echo.Shim.{Reply, value, errno, broken, is_error, error_of, op_ioctl}

abbrev pub firmware_load : ℕ
firmware_load = 0x41006e8d

abbrev pub firmware_last : ℕ
firmware_last = 0x81006e8e

abbrev pub area_release_obsolete : ℕ
area_release_obsolete = 0x40086e81

abbrev pub event_acquire : ℕ
event_acquire = 0x40106e83

abbrev pub event_release : ℕ
event_release = 0x40106e84

-- The first `switch`: `arg_size`, or `none` for an unknown request.
unfoldable pub arg_size : ℕ → Option ℕ
arg_size request =
    if request == identification
    then some 4
    else if request == firmware_load
    then some 256
    else if request == firmware_last
    then some 0
    else if request == area_request || request == area_release
    then some 32
    else if request == area_release_obsolete
    then some 8
    else if request == expl_request
    then some 168
    else if request == event_acquire || request == event_release
    then some 16
    else none

-- What stays in `argp` of a structure that is read: its bytes as far as they are copied.
abbrev pub copied : ℕ → List ℕ → Reply
copied temp bytes = value (u32 temp) bytes

module _ (struct_bytes : List ℕ) where
  -- The second `switch`, for a result that is no error. Each structure is at least as long as
  -- `struct nfp_cpp_identification`, whose size all tests use but that for the firmware's name, which
  -- tests the size of an `int`. `struct_bytes` is what the uninitialised structures hold.
  unfoldable pub read_answer : ℕ → ℕ → Proc Reply
  read_answer request temp =
      if request == identification
      then read 20 (λ r bytes.
        let ident = overwrite 20 bytes struct_bytes in
        if short r 20 then ret broken else ret (copied temp (take (field ident 0 4) ident)))
      else if request == firmware_last
      then read 256 (λ r bytes. if short r 4 then ret broken else ret (copied temp bytes))
      else if request == area_request
      then read 32 (λ r bytes.
        if short r 20 then ret broken else ret (copied temp (overwrite 32 bytes struct_bytes)))
      else if request == expl_request
      then read 168 (λ r bytes.
        if short r 20 then ret broken else ret (copied temp (overwrite 168 bytes struct_bytes)))
      else ret (copied temp [])

  unfoldable pub read_result : ℕ → Proc Reply
  unfolding read_answer
  read_result request = read_word request (λ r temp.
      if short r 8
      then ret broken
      else if is_error temp
      then ret (errno (error_of temp))
      else read_answer request temp)

  -- The argument, of `n` bytes.
  unfoldable pub send_arg : ℕ → List ℕ → ℕ → Proc Reply
  unfolding read_result
  send_arg n argp request =
      if ltb 0 n
      then write (take n argp) (λ r. if short r n then ret broken else read_result request)
      else read_result request

  -- `argp` is `none` if it is null, and else the bytes it points to.
  unfoldable pub ioctl_cpp : ℕ → Option (List ℕ) → Proc Reply
  unfolding arg_size send_arg
  ioctl_cpp request argp = write_word op_ioctl (λ r. if short r 8 then ret broken else start argp)
    where
      bytes_of : Option (List ℕ) → List ℕ
      bytes_of none = []
      bytes_of (some bytes) = bytes

      go : Proc Reply
      go = elim (arg_size request) [
        | none ↦ ret (errno 22)
        | some n ↦
            write_word request
              (λ r. if short r 8 then ret broken else send_arg n (bytes_of argp) request)
      ]

      start : Option (List ℕ) → Proc Reply
      start none = if request == identification then ret (value 20 []) else go
      start (some bytes) = go
