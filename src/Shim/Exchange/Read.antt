-- ===== src/Shim/Exchange/Read.antt =====
-- A client's read, through the shim and the daemon, of the card's memory: `pread` of
-- shim/interpose.c and `nfp_cpp_dev_read` of user/nfpcore/nfp_cpp_dev_ops.c.
use nfp_udp_echo.Base.{
  ℕ, suc, ◌+◌, ◌^◌, ◌<◌, ◌≤◌, Bool, ◌≡◌, ap, ◌∙◌, subst, true, List, [], ◌++◌, length,
  if◌then◌else◌, arith,
}
use nfp_udp_echo.Base.Memory.{Mem, read_bytes, length-read_bytes}
use nfp_udp_echo.Socket.{Ret, short, Proc, ret, emit, advance_proc, dialogue}
use nfp_udp_echo.Socket.Words.{to_le, read_word}
use nfp_udp_echo.Socket.Runs.{advance-ret, advance-wait, advance-read_word}
use nfp_udp_echo.Socket.Loops.{read_all, advance-read_all, advance-write_all, advance-write_word}
use nfp_udp_echo.Shim.{Reply, value, broken, errno, is_error, error_of, op_pread, pread_cpp}
use nfp_udp_echo.Cdev.Transfer.{fetched, cpp_id_of, nfp_offset_of, nfp_cpp_dev_read}
use nfp_udp_echo.Cdev.Transfer.Aligned.{Aligned}
use nfp_udp_echo.Cdev.Transfer.Windows.{IsCard, nfp_cpp_dev_read_lem}
use nfp_udp_echo.Cdev.Command.{Device, Surroundings, send_read, command, handle_cmd}
use nfp_udp_echo.Shim.Exchange.{dialogue_by, three_words, range_given, command_given, not_error}

-- What the client of a read waits for.
answer : ℕ → ℕ → Ret → ℕ → Proc Reply
answer rounds offset r temp =
    if short r 8
    then ret broken
    else if is_error temp
    then ret (errno (error_of temp))
    else read_all rounds temp [] (ret broken) (λ bytes. ret (value temp bytes))

pread_asks :
    (rounds count offset : ℕ)
    → advance_proc (pread_cpp rounds count offset) [] ≡ record {
      out = to_le 8 op_pread ++ (to_le 8 count ++ (to_le 8 offset ++ []));
      proc = read_word offset (answer rounds offset);
      rest = [];
    }
unfolding pread_cpp answer
pread_asks rounds count offset =
    three_words op_pread count offset (ret broken) (read_word offset (answer rounds offset)) []
    ∙ ap (λ r. emit (to_le 8 op_pread) (emit (to_le 8 count) (emit (to_le 8 offset) r)))
        (advance-wait 8 [] _ (omega arith))

module _ (w : Surroundings) (rounds : ℕ) (d : Device) where
  read_served :
      (n offset : ℕ) (bytes q : List ℕ)
      → n < 2 ^ 64
      → offset < 2 ^ 64
      → nfp_cpp_dev_read (w.library d.mem) n offset ≡ fetched bytes
      → advance_proc
          (handle_cmd w (suc rounds) d)
          (to_le 8 op_pread ++ (to_le 8 n ++ (to_le 8 offset ++ q)))
        ≡ record { out = to_le 8 (length bytes) ++ (bytes ++ []); proc = ret (true, d); rest = q }
  unfolding command send_read
  read_served n offset bytes q h h' e =
      command_given w rounds d op_pread (to_le 8 n ++ (to_le 8 offset ++ q)) (omega arith)
      ∙ range_given w rounds d op_pread n offset
          (λ x y. send_read w (suc rounds) d (nfp_cpp_dev_read (w.library d.mem) x y)) q h h'
      ∙ ap (λ o. advance_proc (send_read w (suc rounds) d o) q) e
      ∙ advance-write_word (length bytes) q _ _
      ∙ ap (emit (to_le 8 (length bytes)))
          (advance-write_all rounds bytes q _ _ ∙ ap (emit bytes) (advance-ret (true, d) q))

answered :
    (rounds offset n : ℕ) (bytes : List ℕ)
    → n < 2 ^ 31
    → length bytes ≡ n
    → advance_proc (read_word offset (answer (suc rounds) offset)) (to_le 8 n ++ (bytes ++ []))
      ≡ record { out = []; proc = ret (value n bytes); rest = [] }
unfolding answer
answered rounds offset n bytes h e =
    advance-read_word n offset (bytes ++ []) (answer (suc rounds) offset) (omega arith)
    ∙ rw (not_error n h) (
        subst
          (λ m.
            advance_proc (read_all (suc rounds) m [] (ret broken) (λ b. ret (value n b)))
              (bytes ++ [])
            ≡ record { out = []; proc = ret (value n bytes); rest = [] })
          e
          (advance-read_all rounds bytes [] [] (ret broken) (λ b. ret (value n b))
            ∙ advance-ret (value n bytes) []))

-- A `pread` of fewer than 2 ^ 31 bytes, whose offset and count are aligned to the target's words and
-- whose end has at most 40 bits, of a card that serves aligned areas and pieces inside one window of
-- 1 MiB: through the shim and the daemon it returns its count and gives the card's bytes at the
-- offset; the daemon goes on as before, and nothing stays in the socket.
pub pread-handle_cmd :
    (w : Surroundings) (rounds : ℕ) (d : Device) (wide : Bool) (m : Mem) (n offset : ℕ)
    → IsCard (w.library d.mem) (cpp_id_of offset) wide m
    → Aligned wide offset
    → Aligned wide n
    → nfp_offset_of offset + n ≤ 2 ^ 40
    → n < 2 ^ 31
    → offset < 2 ^ 64
    → dialogue (pread_cpp (suc rounds) n offset) (handle_cmd w (suc rounds) d) ≡ record {
      client = ret (value n (read_bytes m (nfp_offset_of offset) n));
      server = ret (true, d);
      unread_by_client = [];
      unread_by_server = [];
    }
pread-handle_cmd w rounds d wide m n offset ok ao an t h h' =
    let bytes = read_bytes m (nfp_offset_of offset) n in
    dialogue_by _ _ _ _ _ (pread_asks (suc rounds) n offset)
      (read_served w rounds d n offset bytes [] (omega arith) h'
        (nfp_cpp_dev_read_lem (w.library d.mem) wide m n offset ok ao an t))
      (ap
          (λ k.
            advance_proc (read_word offset (answer (suc rounds) offset))
              (to_le 8 k ++ (bytes ++ [])))
          (length-read_bytes m (nfp_offset_of offset) n)
        ∙ answered rounds offset n bytes h (length-read_bytes m (nfp_offset_of offset) n))
