-- ===== src/Cdev/Command/Finish.antt =====
-- A command of user/nfpcore/nfp_cpp_dev.c comes to an end.
use nfp_udp_echo.Base.{
  ℕ, ◌^◌, ◌<◌, ◌≤◌, Bool, true, false, not, List, [], ◌==◌, length, arith, on_if, if◌then◌else◌,
}
use nfp_udp_echo.Base.Memory.{Mem}
use nfp_udp_echo.Socket.{short, negative, Proc, ret}
use nfp_udp_echo.Socket.Words.{to_le, read_word}
use nfp_udp_echo.Socket.Loops.{read_all}
use nfp_udp_echo.Socket.Finish.{
  Finishes, ret-Finishes, write-Finishes, read-Finishes, read_word-Finishes, read_all-Finishes,
  write_all-Finishes,
}
use nfp_udp_echo.Cdev.{Area, AreaCalls}
use nfp_udp_echo.Cdev.Transfer.Lengths.{ReadsAsked, AcquiresSmall, AtMost, read-AtMost}
use nfp_udp_echo.Cdev.Transfer.{Library, Fetched, still_reading, refused, fetched}
use nfp_udp_echo.Cdev.Write.{WriteLibrary, Stored, still_writing, stored, nfp_cpp_dev_write}
use nfp_udp_echo.Cdev.Write.Ends.{Ended, write-Ended}
use nfp_udp_echo.Cdev.Command.{
  Device, Surroundings, End, send_read, send_written, with_range, command, handle_cmd, eio_word,
}
use nfp_udp_echo.Cdev.Command.Ioctl.{
  Chip, identification, area_request, area_release, expl_request, send_result, ioctl_identification,
  ioctl_area_request, ioctl_area_release, ioctl_expl_request, nfp_cpp_dev_ioctl,
}

module _ {ℓ} {A : Type ℓ} (chip : Chip) (calls : AreaCalls) (old : List ℕ) (areas : List Area)
    (done : Bool → List Area → Proc A)
    (ends : (ok : Bool) (areas' : List Area) → Finishes (done ok areas')) where
  result-Finishes :
      (word : ℕ) (bytes : List ℕ) (areas' : List Area)
      → Finishes (send_result chip calls old areas done word bytes areas')
  unfolding send_result
  result-Finishes word bytes areas' = write-Finishes (to_le 8 word) _ (λ r.
      on_if Finishes (short r 8) _ _ (λ _. ends false areas')
        (λ _. write-Finishes bytes _ (λ r'. ends (not (short r' (length bytes))) areas')))

  -- The test of a structure that has been read.
  or_done : (b : Bool) (p : Proc A) → Finishes p → Finishes (if b then done false areas else p)
  or_done b p h = on_if Finishes b (done false areas) p (λ _. ends false areas) (λ _. h)

  ioctl-Finishes : (request : ℕ) → Finishes (nfp_cpp_dev_ioctl chip calls old areas done request)
  unfolding nfp_cpp_dev_ioctl ioctl_identification ioctl_area_request ioctl_area_release
      ioctl_expl_request
  ioctl-Finishes request =
      on_if Finishes (request == identification) _ _
        (λ _. read-Finishes 4 _ (λ r bytes. or_done (short r 4) _ (result-Finishes _ _ _)))
        (λ _.
          on_if Finishes (request == area_request) _ _
            (λ _. read-Finishes 32 _ (λ r bytes. or_done (short r 32) _ (result-Finishes _ _ _)))
            (λ _.
              on_if Finishes (request == area_release) _ _
                (λ _.
                  read-Finishes 32 _
                    (λ r bytes. or_done (short r 32) _ (write-Finishes _ _ (λ r'. ends _ _))))
                (λ _.
                  on_if Finishes (request == expl_request) _ _
                    (λ _.
                      read-Finishes 168 _
                        (λ r bytes. or_done (short r 168) _ (result-Finishes _ _ _)))
                    (λ _. ends false areas))))

module _ (w : Surroundings) (rounds : ℕ) (d : Device) (enough : 2 ^ 64 ≤ rounds)
    (asked : (m : Mem) → ReadsAsked (w.library m))
    (small : (m : Mem) → AcquiresSmall (Library.area_acquire (w.library m)))
    (small_write : AcquiresSmall (WriteLibrary.acquire_for_write w.writes)) where
  or_fail : (b : Bool) (p : Proc End) → Finishes p → Finishes (if b then ret (false, d) else p)
  or_fail b p h = on_if Finishes b (ret (false, d)) p (λ _. ret-Finishes (false, d)) (λ _. h)

  send_read-Finishes :
      (count : ℕ) (o : Fetched)
      → count < 2 ^ 64
      → AtMost count o
      → Finishes (send_read w rounds d o)
  unfolding send_read
  send_read-Finishes count still_reading l h = absurd h
  send_read-Finishes count refused l h =
      write-Finishes (to_le 8 w.read_error) _ (λ r. ret-Finishes _)
  send_read-Finishes count (fetched bytes) l h = write-Finishes (to_le 8 (length bytes)) _ (λ r.
      or_fail (short r 8) _ (
        write_all-Finishes rounds bytes (ret (false, d)) (ret (true, d)) (omega arith)
          (ret-Finishes _) (ret-Finishes _)))

  send_written-Finishes :
      (count : ℕ) (r : Stored) → Ended r → Finishes (send_written w rounds d count r)
  unfolding send_written
  send_written-Finishes count still_writing h = absurd h
  send_written-Finishes count (stored true m) h =
      write-Finishes (to_le 8 count) _ (λ r. ret-Finishes _)
  send_written-Finishes count (stored false m) h =
      write-Finishes (to_le 8 eio_word) _ (λ r. ret-Finishes _)

  with_range-Finishes :
      (tmp : ℕ) (k : ℕ → ℕ → Proc End)
      → ((count offset : ℕ) → count < 2 ^ 64 → Finishes (k count offset))
      → Finishes (with_range w rounds d tmp k)
  unfolding with_range
  with_range-Finishes tmp k h = read_word-Finishes tmp _ (λ r count l.
      or_fail (negative r) _
        (read_word-Finishes count _ (λ r' offset l'. or_fail (negative r') _ (h count offset l))))

  write_command-Finishes :
      (op : ℕ)
      → Finishes (
          with_range w rounds d op (λ count offset.
            read_all rounds count [] (ret (false, d)) (λ buf.
              send_written w rounds d count (nfp_cpp_dev_write w.writes count offset buf d.mem))))
  write_command-Finishes op = with_range-Finishes op _ (λ count offset l.
      read_all-Finishes rounds count [] (ret (false, d)) _ (omega arith) (ret-Finishes (false, d))
        (λ buf.
          send_written-Finishes count (nfp_cpp_dev_write w.writes count offset buf d.mem)
            (write-Ended w.writes count offset buf d.mem small_write)))

  ioctl_command-Finishes :
      (op : ℕ)
      → Finishes {A = End} (
          read_word op (λ r request.
            if negative r
            then ret (false, d)
            else nfp_cpp_dev_ioctl w.chip w.calls w.struct_bytes d.areas
                (λ ok areas. ret (ok, record d { areas = areas }))
                request))
  ioctl_command-Finishes op = read_word-Finishes op _ (λ r request l. or_fail (negative r) _ (
      ioctl-Finishes w.chip w.calls w.struct_bytes d.areas _
        (λ ok areas. ret-Finishes (ok, record d { areas = areas })) request))

  command-Finishes : (op : ℕ) → Finishes (command w rounds d op)
  unfolding command
  command-Finishes op =
      on_if Finishes (op == 1) _ _
        (λ _. with_range-Finishes op _ (λ count offset l.
          send_read-Finishes count _ l
            (read-AtMost (w.library d.mem) count offset (asked d.mem) (small d.mem) l)))
        (λ _.
          on_if Finishes (op == 2) _ _ (λ _. write_command-Finishes op)
            (λ _.
              on_if Finishes (op == 3) _ _ (λ _. ioctl_command-Finishes op)
                (λ _. ret-Finishes (false, d))))

  -- The daemon ends every command, whatever the client sends, if each `read` and `write` on the
  -- socket fails or moves at least one byte, the library gives no more bytes than it is asked for,
  -- and no area of 2 ^ 32 bytes or more can be acquired: 2 ^ 64 rounds are enough for each loop on
  -- the socket.
  pub handle_cmd-Finishes : Finishes (handle_cmd w rounds d)
  unfolding handle_cmd
  handle_cmd-Finishes =
      read_word-Finishes w.tmp _ (λ r op l. or_fail (negative r) _ (command-Finishes op))
