-- ===== src/Shim/Finish.antt =====
-- The calls of shim/interpose.c on the device come to an end.
use nfp_udp_echo.Base.{
  ℕ, ◌^◌, ◌<◌, ◌≤◌, Bool, Option, if◌then◌else◌, none, some, List, [], ◌∷◌, length, ltb, ◌==◌, take,
  arith, on_if,
}
use nfp_udp_echo.Socket.{short, Proc, ret}
use nfp_udp_echo.Socket.Words.{to_le, write_word}
use nfp_udp_echo.Socket.Finish.{
  Finishes, ret-Finishes, write-Finishes, read-Finishes, read_word-Finishes, write_words-Finishes,
  read_all-Finishes, write_all-Finishes,
}
use nfp_udp_echo.Cdev.Command.Ioctl.{identification, area_request, expl_request}
use nfp_udp_echo.Shim.{
  Reply, value, errno, broken, is_error, error_of, op_pread, op_pwrite, op_ioctl, pread_cpp,
  pwrite_cpp,
}
use nfp_udp_echo.Shim.Ioctl.{firmware_last, arg_size, read_answer, read_result, send_arg, ioctl_cpp}

-- A test after which the call is given up.
or_broken : (b : Bool) (p : Proc Reply) → Finishes p → Finishes (if b then ret broken else p)
or_broken b p h = on_if Finishes b (ret broken) p (λ _. ret-Finishes broken) (λ _. h)

-- The word that the daemon answers with, and its tests.
or_error :
    (size : Bool) (temp : ℕ) (p : Proc Reply)
    → Finishes p
    → Finishes
        (if size then ret broken else if is_error temp then ret (errno (error_of temp)) else p)
or_error size temp p h =
    or_broken size _ (on_if Finishes (is_error temp) _ p (λ _. ret-Finishes _) (λ _. h))

pread-Finishes :
    (rounds count offset : ℕ) → 2 ^ 64 ≤ rounds → Finishes (pread_cpp rounds count offset)
unfolding pread_cpp
pread-Finishes rounds count offset l =
    write_words-Finishes (op_pread ∷ count ∷ offset ∷ []) (ret broken) _ (ret-Finishes broken) (
      read_word-Finishes offset _ (λ r temp w. or_error (short r 8) temp _ (
        read_all-Finishes rounds temp [] (ret broken) (λ bytes. ret (value temp bytes))
          (omega arith) (ret-Finishes broken) (λ bytes. ret-Finishes (value temp bytes)))))

pwrite-Finishes :
    (rounds : ℕ) (buf : List ℕ) (offset : ℕ)
    → length buf ≤ rounds
    → Finishes (pwrite_cpp rounds buf offset)
unfolding pwrite_cpp
pwrite-Finishes rounds buf offset l =
    write_words-Finishes (op_pwrite ∷ length buf ∷ offset ∷ []) (ret broken) _ (ret-Finishes broken)
      (write_all-Finishes rounds buf (ret broken) _ l (ret-Finishes broken) (
        read_word-Finishes offset _
          (λ r temp w. or_error (short r 8) temp _ (ret-Finishes (value temp [])))))

known-Finishes :
    (size : Option ℕ) (f : ℕ → Proc Reply)
    → ((n : ℕ) → Finishes (f n))
    → Finishes (elim size [ none ↦ ret (errno 22) | some n ↦ f n ])
known-Finishes none f h = ret-Finishes (errno 22)
known-Finishes (some n) f h = h n

module _ (struct_bytes : List ℕ) where
  answer-Finishes : (request temp : ℕ) → Finishes (read_answer struct_bytes request temp)
  unfolding read_answer
  answer-Finishes request temp =
      on_if Finishes (request == identification) _ _
        (λ _. read-Finishes 20 _ (λ r bytes. or_broken (short r 20) _ (ret-Finishes _)))
        (λ _.
          on_if Finishes (request == firmware_last) _ _
            (λ _. read-Finishes 256 _ (λ r bytes. or_broken (short r 4) _ (ret-Finishes _)))
            (λ _.
              on_if Finishes (request == area_request) _ _
                (λ _. read-Finishes 32 _ (λ r bytes. or_broken (short r 20) _ (ret-Finishes _)))
                (λ _.
                  on_if Finishes (request == expl_request) _ _
                    (λ _.
                      read-Finishes 168 _ (λ r bytes. or_broken (short r 20) _ (ret-Finishes _)))
                    (λ _. ret-Finishes _))))

  result-Finishes : (request : ℕ) → Finishes (read_result struct_bytes request)
  unfolding read_result
  result-Finishes request =
      read_word-Finishes request _
        (λ r temp w. or_error (short r 8) temp _ (answer-Finishes request temp))

  arg-Finishes :
      (n : ℕ) (argp : List ℕ) (request : ℕ) → Finishes (send_arg struct_bytes n argp request)
  unfolding send_arg
  arg-Finishes n argp request =
      on_if Finishes (ltb 0 n) _ _
        (λ _.
          write-Finishes (take n argp) _ (λ r. or_broken (short r n) _ (result-Finishes request)))
        (λ _. result-Finishes request)

  request-Finishes :
      (request n : ℕ) (argp : List ℕ)
      → Finishes (
          write_word request
            (λ r. if short r 8 then ret broken else send_arg struct_bytes n argp request))
  request-Finishes request n argp =
      write-Finishes (to_le 8 request) _
        (λ r. or_broken (short r 8) _ (arg-Finishes n argp request))

  ioctl-Finishes :
      (request : ℕ) (argp : Option (List ℕ)) → Finishes (ioctl_cpp struct_bytes request argp)
  unfolding ioctl_cpp
  ioctl-Finishes request (some argp) = write-Finishes (to_le 8 op_ioctl) _ (λ r.
      or_broken (short r 8) _
        (known-Finishes (arg_size request) _ (λ n. request-Finishes request n argp)))
  ioctl-Finishes request none = write-Finishes (to_le 8 op_ioctl) _ (λ r. or_broken (short r 8) _ (
      on_if Finishes (request == identification) _ _ (λ _. ret-Finishes (value 20 []))
        (λ _. known-Finishes (arg_size request) _ (λ n. request-Finishes request n []))))

-- Every `pread`, `pwrite` and `ioctl` on the device ends, whatever the daemon answers, if each `read`
-- and `write` on the socket fails or moves at least one byte: 2^64 rounds are enough for each loop.
pub calls-Finishes :
    (rounds count offset : ℕ) (buf : List ℕ) (request : ℕ) (argp : Option (List ℕ))
    (struct_bytes : List ℕ)
    → 2 ^ 64 ≤ rounds
    → length buf < 2 ^ 64
    → Finishes (pread_cpp rounds count offset)
      × Finishes (pwrite_cpp rounds buf offset)
      × Finishes (ioctl_cpp struct_bytes request argp)
calls-Finishes rounds count offset buf request argp struct_bytes l h = (
  pread-Finishes rounds count offset l,
  pwrite-Finishes rounds buf offset (omega arith),
  ioctl-Finishes struct_bytes request argp,
)
