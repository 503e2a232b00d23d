-- ===== src/Shim.antt =====
-- shim/interpose.c: the file calls of a client, which the shim sends over a socket to the daemon.
pub mod Descriptors
pub mod Served
pub mod Ioctl
pub mod Exchange
pub mod Finish
use nfp_udp_echo.Base.{ℕ, ◌+◌, ◌-◌, ◌^◌, Bool, List, [], ◌∷◌, leb, ltb, length, if◌then◌else◌}
use nfp_udp_echo.Base.Words.{u32}
use nfp_udp_echo.Socket.{short, Proc, ret}
use nfp_udp_echo.Socket.Words.{read_word}
use nfp_udp_echo.Socket.Loops.{read_all, write_all, write_words}

-- `enum op_type`
abbrev pub op_pread : ℕ
op_pread = 1

abbrev pub op_pwrite : ℕ
op_pwrite = 2

abbrev pub op_ioctl : ℕ
op_ioctl = 3

-- What a call on the device comes to: a number returned, with the bytes put in the client's buffer;
-- -1 with an error number; or -1 with EIO, after `close(fd)`.
pub data Reply : Type 0 where
  value : ℕ → List ℕ → Reply
  errno : ℕ → Reply
  broken : Reply

-- `(int) temp < 0`, and `-(int) temp` then
abbrev pub is_error : ℕ → Bool
is_error temp = leb (2 ^ 31) (u32 temp)

abbrev pub error_of : ℕ → ℕ
error_of temp = 2 ^ 32 - u32 temp

-- `pread` and `pread64` on the device, each of whose loops is followed for `rounds` calls.
unfoldable pub pread_cpp : ℕ → ℕ → ℕ → Proc Reply
pread_cpp rounds count offset = write_words (op_pread ∷ count ∷ offset ∷ []) (ret broken) (
    read_word offset (λ r temp.
      if short r 8
      then ret broken
      else if is_error temp
      then ret (errno (error_of temp))
      else read_all rounds temp [] (ret broken) (λ bytes. ret (value temp bytes))))

-- `pwrite` and `pwrite64` on the device, for the bytes of the client's buffer.
unfoldable pub pwrite_cpp : ℕ → List ℕ → ℕ → Proc Reply
pwrite_cpp rounds buf offset = write_words (op_pwrite ∷ length buf ∷ offset ∷ []) (ret broken) (
    write_all rounds buf (ret broken) (
      read_word offset (λ r temp.
        if short r 8
        then ret broken
        else if is_error temp
        then ret (errno (error_of temp))
        else ret (value temp []))))
