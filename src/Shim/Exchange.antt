-- ===== src/Shim/Exchange.antt =====
-- One exchange between a client's call in shim/interpose.c and `nfp_cpp_dev_handle_cmd` of
-- user/nfpcore/nfp_cpp_dev.c: the parts that all commands share.
pub mod Read
pub mod Write
pub mod AreaRequest
use nfp_udp_echo.Base.{
  ℕ, zero, suc, ◌+◌, ◌-◌, ◌%◌, ◌^◌, ◌<◌, ◌≡◌, refl, ap, ap₂, sym, ◌∙◌, subst, true, false, some,
  List, [], ◌∷◌, ◌++◌, length, leb, leb-false, ◌==◌, if◌then◌else◌, arith,
}
use nfp_udp_echo.Base.Words.{u32}
use nfp_udp_echo.Base.Memory.{Mem, read_bytes, write_bytes, length-read_bytes}
use nfp_udp_echo.Socket.{
  Ret, moved, short, negative, Proc, ret, read, Ran, emit, advance_proc, Dialogue, dialogue,
}
use nfp_udp_echo.Socket.Words.{to_le, read_word, write_word, length-to_le, append-nil}
use nfp_udp_echo.Socket.Runs.{advance-ret, advance-write, advance-wait, advance-read_word}
use nfp_udp_echo.Socket.Loops.{
  read_all, write_all, write_words, advance-read_all, advance-write_all, advance-write_word,
}
use nfp_udp_echo.Shim.{
  Reply, value, broken, errno, is_error, error_of, op_pread, op_pwrite, pread_cpp, pwrite_cpp,
}
use nfp_udp_echo.Cdev.Transfer.{Library, cpp_id_of, nfp_offset_of, nfp_cpp_dev_read}
use nfp_udp_echo.Cdev.Transfer.Windows.{IsCard, nfp_cpp_dev_read_lem}
use nfp_udp_echo.Cdev.Write.{nfp_cpp_dev_write}
use nfp_udp_echo.Cdev.Command.Ioctl.{nfp_cpp_dev_ioctl}
use nfp_udp_echo.Cdev.Command.{
  Device, Surroundings, End, send_read, send_written, with_range, command, handle_cmd,
}

module _ {ℓ} {A B : Type ℓ} where
  -- A dialogue by its three runs.
  pub dialogue_by :
      (client : Proc A) (server : Proc B) (a c : Ran A) (b : Ran B)
      → advance_proc client [] ≡ a
      → advance_proc server a.out ≡ b
      → advance_proc a.proc b.out ≡ c
      → dialogue client server ≡ record {
        client = c.proc;
        server = b.proc;
        unread_by_client = c.rest;
        unread_by_server = b.rest ++ c.out;
      }
  unfolding dialogue
  dialogue_by client server a c b e f g =
      ap
        (λ x.
          after x (advance_proc server x.out) (advance_proc x.proc (advance_proc server x.out).out))
        e
      ∙ ap (λ y. after a y (advance_proc a.proc y.out)) f
      ∙ ap (after a b) g
    where
      after : Ran A → Ran B → Ran A → Dialogue A B
      after x y z = record {
        client = z.proc;
        server = y.proc;
        unread_by_client = z.rest;
        unread_by_server = y.rest ++ z.out;
      }

module _ {ℓ} {A : Type ℓ} where
  -- Three words sent, and then the rest.
  pub three_words :
      (x y z : ℕ) (fail k : Proc A) (q : List ℕ)
      → advance_proc (write_words (x ∷ y ∷ z ∷ []) fail k) q
        ≡ emit (to_le 8 x) (emit (to_le 8 y) (emit (to_le 8 z) (advance_proc k q)))
  three_words x y z fail k q =
      advance-write_word x q fail (write_words (y ∷ z ∷ []) fail k)
      ∙ ap (emit (to_le 8 x)) (
          advance-write_word y q fail (write_words (z ∷ []) fail k)
          ∙ ap (emit (to_le 8 y)) (advance-write_word z q fail k))

module _ (w : Surroundings) (rounds : ℕ) (d : Device) where
  pub range_given :
      (tmp count offset : ℕ) (k : ℕ → ℕ → Proc End) (q : List ℕ)
      → count < 2 ^ 64
      → offset < 2 ^ 64
      → advance_proc (with_range w (suc rounds) d tmp k) (to_le 8 count ++ (to_le 8 offset ++ q))
        ≡ advance_proc (k count offset) q
  unfolding with_range
  range_given tmp c o k q h h' =
      advance-read_word c tmp (to_le 8 o ++ q)
        (λ r x.
          if negative r
          then ret (false, d)
          else read_word x (λ r' y. if negative r' then ret (false, d) else k x y))
        h
      ∙ advance-read_word o c q (λ r' y. if negative r' then ret (false, d) else k c y) h'

  pub command_given :
      (op : ℕ) (q : List ℕ)
      → op < 2 ^ 64
      → advance_proc (handle_cmd w (suc rounds) d) (to_le 8 op ++ q)
        ≡ advance_proc (command w (suc rounds) d op) q
  unfolding handle_cmd
  command_given op q h =
      advance-read_word op w.tmp q
        (λ r x. if negative r then ret (false, d) else command w (suc rounds) d x) h

pub not_error : (n : ℕ) → n < 2 ^ 31 → is_error n ≡ false
not_error n h = ground arith
