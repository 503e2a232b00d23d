-- ===== src/Shim/Exchange/Write.antt =====
-- A client's write, through the shim and the daemon, to the card's memory: `pwrite` of
-- shim/interpose.c and `nfp_cpp_dev_write` of user/nfpcore/nfp_cpp_dev_ops.c.
use nfp_udp_echo.Base.{
  ℕ, suc, ◌^◌, ◌<◌, ◌≡◌, ap, ◌∙◌, Bool, true, false, not, ltb, List, [], ◌++◌, length,
  if◌then◌else◌, arith,
}
use nfp_udp_echo.Base.Memory.{Mem, write_bytes}
use nfp_udp_echo.Socket.{Ret, short, Proc, ret, emit, advance_proc, dialogue}
use nfp_udp_echo.Socket.Words.{to_le, read_word, length-to_le}
use nfp_udp_echo.Socket.Runs.{advance-ret, advance-write, advance-wait, advance-read_word}
use nfp_udp_echo.Socket.Loops.{read_all, write_all, advance-read_all, advance-write_all}
use nfp_udp_echo.Shim.{Reply, value, broken, errno, is_error, error_of, op_pwrite, pwrite_cpp}
use nfp_udp_echo.Cdev.Transfer.{cpp_id_of, nfp_offset_of}
use nfp_udp_echo.Cdev.Transfer.Aligned.{Aligned}
use nfp_udp_echo.Cdev.Write.{stored, nfp_cpp_dev_write}
use nfp_udp_echo.Cdev.Command.{Device, Surroundings, End, send_written, command, handle_cmd}
use nfp_udp_echo.Shim.Exchange.{dialogue_by, three_words, range_given, command_given, not_error}
use nfp_udp_echo.Cdev.Write.Piecewise.{Writes, nfp_cpp_dev_write_lem}

-- What the client of a write waits for.
answer : ℕ → Ret → ℕ → Proc Reply
answer offset r temp =
    if short r 8
    then ret broken
    else if is_error temp
    then ret (errno (error_of temp))
    else ret (value temp [])

pwrite_asks :
    (rounds offset : ℕ) (buf : List ℕ)
    → advance_proc (pwrite_cpp (suc rounds) buf offset) [] ≡ record {
      out = to_le 8 op_pwrite ++ (to_le 8 (length buf) ++ (to_le 8 offset ++ (buf ++ [])));
      proc = read_word offset (answer offset);
      rest = [];
    }
unfolding pwrite_cpp answer
pwrite_asks rounds offset buf =
    three_words op_pwrite (length buf) offset (ret broken)
      (write_all (suc rounds) buf (ret broken) (read_word offset (answer offset))) []
    ∙ ap (λ r. emit (to_le 8 op_pwrite) (emit (to_le 8 (length buf)) (emit (to_le 8 offset) r)))
        (advance-write_all rounds buf [] _ _ ∙ ap (emit buf) (advance-wait 8 [] _ (omega arith)))

module _ (w : Surroundings) (rounds : ℕ) (d : Device) where
  write_served :
      (offset : ℕ) (buf q : List ℕ) (m : Mem)
      → length buf < 2 ^ 64
      → offset < 2 ^ 64
      → nfp_cpp_dev_write w.writes (length buf) offset buf d.mem ≡ stored true m
      → advance_proc
          (handle_cmd w (suc rounds) d)
          (to_le 8 op_pwrite ++ (to_le 8 (length buf) ++ (to_le 8 offset ++ (buf ++ q))))
        ≡ record {
          out = to_le 8 (length buf) ++ [];
          proc = ret (true, record d { mem = m });
          rest = q;
        }
  unfolding command send_written
  write_served offset buf q m h h' e =
      let done : List ℕ → Proc End = λ b.
        send_written w (suc rounds) d (length buf)
          (nfp_cpp_dev_write w.writes (length buf) offset b d.mem) in
      command_given w rounds d op_pwrite (to_le 8 (length buf) ++ (to_le 8 offset ++ (buf ++ q)))
        (omega arith)
      ∙ range_given w rounds d op_pwrite (length buf) offset
          (λ n o.
            read_all (suc rounds) n [] (ret (false, d))
              (λ b. send_written w (suc rounds) d n (nfp_cpp_dev_write w.writes n o b d.mem)))
          (buf ++ q) h h'
      ∙ advance-read_all rounds buf [] q (ret (false, d)) done
      ∙ ap (λ x. advance_proc (send_written w (suc rounds) d (length buf) x) q) e
      ∙ advance-write (to_le 8 (length buf)) q (λ r. ret (not (short r 8), record d { mem = m }))
      ∙ ap
          (λ n.
            emit (to_le 8 (length buf))
              (advance_proc (ret (not (ltb n 8), record d { mem = m })) q))
          (length-to_le 8 (length buf))
      ∙ ap (emit (to_le 8 (length buf))) (advance-ret (true, record d { mem = m }) q)

answered :
    (offset n : ℕ)
    → n < 2 ^ 31
    → advance_proc (read_word offset (answer offset)) (to_le 8 n ++ [])
      ≡ record { out = []; proc = ret (value n []); rest = [] }
unfolding answer
answered offset n h =
    advance-read_word n offset [] (answer offset) (omega arith)
    ∙ rw (not_error n h) (advance-ret (value n []) [])

-- A `pwrite` of fewer than 2 ^ 31 bytes, whose offset and length are aligned to the target's words,
-- to a card that gives an area for the whole range and writes aligned pieces of 64 bytes: through the
-- shim and the daemon it returns its count, the bytes stand in the card's memory at the offset, and
-- nothing stays in the socket.
pub pwrite-handle_cmd :
    (w : Surroundings) (rounds : ℕ) (d : Device) (wide : Bool) (buf : List ℕ) (offset : ℕ)
    → Writes w.writes (cpp_id_of offset) wide
    → Aligned wide offset
    → Aligned wide (length buf)
    → length buf < 2 ^ 31
    → offset < 2 ^ 64
    → w.writes.alloc_for_write (cpp_id_of offset) (nfp_offset_of offset) (length buf) ≡ true
    → w.writes.acquire_for_write (cpp_id_of offset) (nfp_offset_of offset) (length buf) ≡ true
    → dialogue (pwrite_cpp (suc rounds) buf offset) (handle_cmd w (suc rounds) d) ≡ record {
      client = ret (value (length buf) []);
      server = ret (true, record d { mem = write_bytes d.mem (nfp_offset_of offset) buf });
      unread_by_client = [];
      unread_by_server = [];
    }
pwrite-handle_cmd w rounds d wide buf offset ok ao al h h' a b =
    dialogue_by _ _ _ _ _ (pwrite_asks rounds offset buf)
      (write_served w rounds d offset buf [] (write_bytes d.mem (nfp_offset_of offset) buf)
        (omega arith) h'
        (nfp_cpp_dev_write_lem w.writes wide offset buf d.mem ok ao al (omega arith) a b))
      (answered offset (length buf) h)
