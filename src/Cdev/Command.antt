-- ===== src/Cdev/Command.antt =====
-- user/nfpcore/nfp_cpp_dev.c: `nfp_cpp_dev_handle_cmd`, the daemon's side of one command, with the
-- calls on the socket of user/nfpcore/nfp_cpp_dev_ops.c.
pub mod Ioctl
pub mod Finish
use nfp_udp_echo.Base.{
  ℕ, ◌+◌, ◌-◌, ◌^◌, Bool, true, false, not, Option, none, some, List, [], ◌∷◌, ◌==◌, length,
  if◌then◌else◌,
}
use nfp_udp_echo.Base.Memory.{Mem}
use nfp_udp_echo.Socket.{short, negative, Proc, ret, spin, read, write}
use nfp_udp_echo.Socket.Words.{read_word, write_word}
use nfp_udp_echo.Socket.Loops.{read_all, write_all}
use nfp_udp_echo.Cdev.{Area, AreaCalls}
use nfp_udp_echo.Cdev.Transfer.{Library, Fetched, still_reading, refused, fetched, nfp_cpp_dev_read}
use nfp_udp_echo.Cdev.Write.{WriteLibrary, Stored, still_writing, stored, nfp_cpp_dev_write}
use nfp_udp_echo.Cdev.Command.Ioctl.{Chip, nfp_cpp_dev_ioctl}

-- `-EIO`, as a `uint64_t`
abbrev pub eio_word : ℕ
eio_word = 2 ^ 64 - 5

-- What the daemon holds: the areas, and the memory that its commands read and write.
pub record Device : Type 0 where
  pub areas : List Area
  pub mem : Mem

-- What a command takes from elsewhere: the library on a given memory, the chip, the allocations, the
-- error number of a read that fails, and what uninitialised variables hold: `tmp`, and a structure,
-- at least as long as any that is used.
pub record Surroundings : Type 0 where
  pub library : Mem → Library
  pub writes : WriteLibrary
  pub chip : Chip
  pub calls : AreaCalls
  pub read_error : ℕ
  pub tmp : ℕ
  pub struct_bytes : List ℕ

-- Whether the result is not negative, and the device then.
abbrev pub End : Type 0
End = Bool × Device

module _ (w : Surroundings) (rounds : ℕ) (d : Device) where
  fail : Proc End
  fail = ret (false, d)

  -- The end of `nfp_cpp_dev_read`: the number of bytes and the bytes, or the error number.
  unfoldable pub send_read : Fetched → Proc End
  unfolding fail
  send_read still_reading = spin
  send_read refused = write_word w.read_error (λ r. ret (not (negative r), d))
  send_read (fetched bytes) =
      write_word (length bytes)
        (λ r. if short r 8 then fail else write_all rounds bytes fail (ret (true, d)))

  -- The end of `nfp_cpp_dev_write`.
  unfoldable pub send_written : ℕ → Stored → Proc End
  send_written count still_writing = spin
  send_written count (stored true m) =
      write_word count (λ r. ret (not (short r 8), record d { mem = m }))
  send_written count (stored false m) =
      write_word eio_word (λ r. ret (not (negative r), record d { mem = m }))

  -- The command's `count` and `offset`.
  unfoldable pub with_range : ℕ → (ℕ → ℕ → Proc End) → Proc End
  unfolding fail
  with_range tmp k = read_word tmp (λ r count.
      if negative r
      then fail
      else read_word count (λ r' offset. if negative r' then fail else k count offset))

  -- The `switch`, on the word of the operation.
  unfoldable pub command : ℕ → Proc End
  unfolding fail with_range send_read send_written
  command op =
      if op == 1
      then with_range op
          (λ count offset. send_read (nfp_cpp_dev_read (w.library d.mem) count offset))
      else if op == 2
      then with_range op (λ count offset.
        read_all rounds count [] fail
          (λ buf. send_written count (nfp_cpp_dev_write w.writes count offset buf d.mem)))
      else if op == 3
      then read_word op (λ r request.
        if negative r
        then fail
        else nfp_cpp_dev_ioctl w.chip w.calls w.struct_bytes d.areas
            (λ ok areas. ret (ok, record d { areas = areas })) request)
      else fail

  unfoldable pub handle_cmd : Proc End
  unfolding command
  handle_cmd = read_word w.tmp (λ r op. if negative r then fail else command op)
