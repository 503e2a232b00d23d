-- ===== src/Shim/Exchange/AreaRequest.antt =====
-- A client's request for an area, through the shim and the daemon: `ioctl` of shim/interpose.c and
-- `ioctl_area_request` of user/nfpcore/nfp_cpp_dev_ops.c.
use nfp_udp_echo.Base.{
  ℕ, zero, suc, ◌-◌, ◌^◌, ◌<◌, ◌≡◌, ◌≢◌, refl, ap, sym, ◌∙◌, Bool, true, false, not, ltb-false,
  some, List, [], ◌∷◌, ◌++◌, length, length-append, take, drop, if◌then◌else◌, arith,
}
use nfp_udp_echo.Socket.{Ret, short, negative, Proc, ret, write, emit, advance_proc, dialogue}
use nfp_udp_echo.Socket.Words.{to_le, write_word, length-to_le, append-nil}
use nfp_udp_echo.Socket.Runs.{
  advance-ret, advance-write, advance-read, advance-wait, advance-read_word,
}
use nfp_udp_echo.Socket.Loops.{advance-write_word, advance-write_struct}
use nfp_udp_echo.Shim.{Reply, value, broken, errno, is_error, error_of, op_ioctl}
use nfp_udp_echo.Shim.Ioctl.{ioctl_cpp, send_arg, read_result, read_answer, copied}
use nfp_udp_echo.Shim.Exchange.{dialogue_by, command_given}
use nfp_udp_echo.Cdev.{
  AreaRequest, Area, Result, success, etxtbsy, enomem, einval, enoent, ebusy, do_cpp_area_request,
}
use nfp_udp_echo.Cdev.Command.{Device, Surroundings, End, command, handle_cmd}
use nfp_udp_echo.Cdev.Command.Ioctl.{
  overwrite, area_request, area_request_of, result_word, nfp_cpp_dev_ioctl, ioctl_area_request,
  send_result,
}

take_all : (n : ℕ) (xs ys : List ℕ) → length xs ≡ n → take n (xs ++ ys) ≡ xs
take_all zero [] ys e = refl
take_all zero (x ∷ xs) ys e = absurd (omega arith)
take_all (suc n) [] ys e = absurd (omega arith)
take_all (suc n) (x ∷ xs) ys e = ap (◌∷◌ x) (take_all n xs ys (omega arith))

take_exact : (n : ℕ) (xs : List ℕ) → length xs ≡ n → take n xs ≡ xs
take_exact n xs e = ap (take n) (sym (append-nil xs)) ∙ take_all n xs [] e

-- The answer's structure: the request with the offset filled in.
abbrev pub filled : List ℕ → AreaRequest → List ℕ
filled argp r = to_le 8 r.offset ++ drop 8 argp

length-drop : (k : ℕ) (xs : List ℕ) → length (drop k xs) ≡ length xs - k
length-drop zero xs = omega arith
length-drop (suc k) [] = omega arith
length-drop (suc k) (x ∷ xs) = omega (arith, length-drop k xs)

length-filled : (argp : List ℕ) (r : AreaRequest) → length argp ≡ 32 → length (filled argp r) ≡ 32
length-filled argp r e = omega (
  arith,
  length-append (to_le 8 r.offset) (drop 8 argp),
  length-to_le 8 r.offset,
  length-drop 8 argp,
)

asks :
    (old argp : List ℕ)
    → length argp ≡ 32
    → advance_proc (ioctl_cpp old area_request (some argp)) [] ≡ record {
      out = to_le 8 op_ioctl ++ (to_le 8 area_request ++ (argp ++ []));
      proc = read_result old area_request;
      rest = [];
    }
unfolding ioctl_cpp send_arg read_result
asks old argp e =
    let sent : List ℕ → Proc Reply =
      λ bytes. write bytes (λ r. if short r 32 then ret broken else read_result old area_request) in
    advance-write_word op_ioctl [] (ret broken)
      (write_word area_request (λ r. if short r 8 then ret broken else sent (take 32 argp)))
    ∙ ap (emit (to_le 8 op_ioctl)) (
        advance-write_word area_request [] (ret broken) (sent (take 32 argp))
        ∙ ap (emit (to_le 8 area_request)) (
            ap (λ b. advance_proc (sent b) []) (take_exact 32 argp e)
            ∙ advance-write_struct 32 argp [] (ret broken) (read_result old area_request) e
            ∙ ap (emit argp) (advance-wait 8 [] _ (omega arith))))

-- What the daemon makes of the request.
abbrev pub granted : Surroundings → Device → List ℕ → Result × AreaRequest × List Area
granted w d argp = do_cpp_area_request w.calls w.chip.interface (area_request_of argp) d.areas

module _ (w : Surroundings) (rounds : ℕ) (d : Device) (argp : List ℕ) (e : length argp ≡ 32) where
  result_sent :
      (word : ℕ) (bytes q : List ℕ) (areas : List Area)
      → advance_proc {A = End}
          (send_result w.chip w.calls w.struct_bytes d.areas
            (λ ok a. ret (ok, record d { areas = a }))
            word
            bytes
            areas)
          q
        ≡ record {
          out = to_le 8 word ++ (bytes ++ []);
          proc = ret (true, record d { areas = areas });
          rest = q;
        }
  unfolding send_result
  result_sent word bytes q areas =
      let k : Bool → Proc End = λ b. ret (not b, record d { areas = areas }) in
      advance-write_word word q (k true) (write bytes (λ r. k (short r (length bytes))))
      ∙ ap (emit (to_le 8 word)) (
          advance-write bytes q (λ r. k (short r (length bytes)))
          ∙ ap (λ b. emit bytes (advance_proc (k b) q))
              (ltb-false (length bytes) (length bytes) (omega arith))
          ∙ ap (emit bytes) (advance-ret (true, record d { areas = areas }) q))

  served :
      (q : List ℕ)
      → advance_proc
          (handle_cmd w (suc rounds) d)
          (to_le 8 op_ioctl ++ (to_le 8 area_request ++ (argp ++ q)))
        ≡ record {
          out =
              to_le 8 (result_word (granted w d argp).0)
              ++ (filled argp (granted w d argp).1 ++ []);
          proc = ret (true, record d { areas = (granted w d argp).2 });
          rest = q;
        }
  unfolding command nfp_cpp_dev_ioctl ioctl_area_request send_result
  served q =
      let finish : Bool → List Area → Proc End = λ ok areas. ret (ok, record d { areas = areas }) in
      let with_struct : List ℕ → Proc End = λ req.
        let r = do_cpp_area_request w.calls w.chip.interface (area_request_of req) d.areas in
        send_result w.chip w.calls w.struct_bytes d.areas finish (result_word r.0)
          (to_le 8 r.1.offset ++ drop 8 req) r.2 in
      command_given w rounds d op_ioctl (to_le 8 area_request ++ (argp ++ q)) (omega arith)
      ∙ advance-read_word area_request op_ioctl (argp ++ q)
          (λ r request.
            if negative r
            then ret (false, d)
            else nfp_cpp_dev_ioctl w.chip w.calls w.struct_bytes d.areas finish request)
          (omega arith)
      ∙ advance-read 32 argp q
          (λ r bytes.
            if short r 32
            then finish false d.areas
            else with_struct (overwrite 32 bytes w.struct_bytes))
          e
      ∙ ap (λ req. advance_proc (with_struct req) q)
          (take_all 32 argp (drop (length argp) w.struct_bytes) e)
      ∙ result_sent (result_word (granted w d argp).0) (filled argp (granted w d argp).1) q
          (granted w d argp).2

result_word-bound : (r : Result) → result_word r < 2 ^ 64
result_word-bound success = omega arith
result_word-bound etxtbsy = omega arith
result_word-bound enomem = omega arith
result_word-bound einval = omega arith
result_word-bound enoent = omega arith
result_word-bound ebusy = omega arith

-- Every result but success is a negative number for the client.
result_word-is_error : (r : Result) → r ≢ success → is_error (result_word r) ≡ true
result_word-is_error success h = absurd (h refl)
result_word-is_error etxtbsy h = refl
result_word-is_error enomem h = refl
result_word-is_error einval h = refl
result_word-is_error enoent h = refl
result_word-is_error ebusy h = refl

taking : List ℕ → Ret → ℕ → Proc Reply
taking old r temp =
    if short r 8
    then ret broken
    else if is_error temp
    then ret (errno (error_of temp))
    else read_answer old area_request temp

module _ (old argp : List ℕ) (e : length argp ≡ 32) where
  accepted :
      advance_proc (read_result old area_request) (to_le 8 0 ++ (argp ++ []))
      ≡ record { out = []; proc = ret (value 0 argp); rest = [] }
  unfolding read_result read_answer taking
  accepted =
      advance-read_word 0 area_request (argp ++ []) (taking old) (omega arith)
      ∙ advance-read 32 argp []
          (λ r bytes. if short r 20 then ret broken else ret (copied 0 (overwrite 32 bytes old))) e
      ∙ ap (λ b. advance_proc (ret (value 0 b)) []) (take_all 32 argp (drop (length argp) old) e)
      ∙ advance-ret (value 0 argp) []

  refused :
      (x : ℕ)
      → x < 2 ^ 64
      → is_error x ≡ true
      → advance_proc (read_result old area_request) (to_le 8 x ++ (argp ++ []))
        ≡ record { out = []; proc = ret (errno (error_of x)); rest = argp }
  unfolding read_result taking
  refused x h q =
      advance-read_word x area_request (argp ++ []) (taking old) h
      ∙ ap
          (λ b.
            advance_proc (if b then ret (errno (error_of x)) else read_answer old area_request x)
              (argp ++ []))
          q
      ∙ advance-ret (errno (error_of x)) (argp ++ [])
      ∙ ap (λ xs. record { out = []; proc = ret (errno (error_of x)); rest = xs }) (append-nil argp)

-- A request for an area that the daemon grants comes back with the structure as the daemon has
-- filled it in, and the daemon holds the area; nothing stays in the socket.
pub ioctl-area_request :
    (w : Surroundings) (rounds : ℕ) (d : Device) (old argp : List ℕ) (e : length argp ≡ 32)
    → (granted w d argp).0 ≡ success
    → dialogue (ioctl_cpp old area_request (some argp)) (handle_cmd w (suc rounds) d) ≡ record {
      client = ret (value 0 (filled argp (granted w d argp).1));
      server = ret (true, record d { areas = (granted w d argp).2 });
      unread_by_client = [];
      unread_by_server = [];
    }
ioctl-area_request w rounds d old argp e s =
    dialogue_by _ _ _ _ _ (asks old argp e) (served w rounds d argp e []) (
      ap
        (λ x.
          advance_proc (read_result old area_request)
            (to_le 8 (result_word x) ++ (filled argp (granted w d argp).1 ++ [])))
        s
      ∙ accepted old (filled argp (granted w d argp).1) (length-filled argp (granted w d argp).1 e))

-- A request that the daemon refuses gives the client the error number; but the structure that the
-- daemon sends all the same stays unread in the socket, where the next call takes it for its answer.
pub ioctl-area_request_refused :
    (w : Surroundings) (rounds : ℕ) (d : Device) (old argp : List ℕ) (e : length argp ≡ 32)
    → (granted w d argp).0 ≢ success
    → dialogue (ioctl_cpp old area_request (some argp)) (handle_cmd w (suc rounds) d) ≡ record {
      client = ret (errno (error_of (result_word (granted w d argp).0)));
      server = ret (true, record d { areas = (granted w d argp).2 });
      unread_by_client = filled argp (granted w d argp).1;
      unread_by_server = [];
    }
ioctl-area_request_refused w rounds d old argp e s =
    dialogue_by _ _ _ _ _ (asks old argp e) (served w rounds d argp e []) (
      refused old (filled argp (granted w d argp).1) (length-filled argp (granted w d argp).1 e)
        (result_word (granted w d argp).0) (result_word-bound (granted w d argp).0)
        (result_word-is_error (granted w d argp).0 s))
