-- ===== src/Socket/Loops.antt =====
-- The loops over `read` and `write` that both sides of the socket have, and how they run.
use nfp_udp_echo.Base.{
  ℕ, zero, suc, ◌-◌, ◌≡◌, refl, ap, ◌∙◌, sym, List, [], ◌∷◌, ◌++◌, length, drop, arith, false,
  ==_iff, ltb, ltb-false, ◌==◌, if◌then◌else◌,
}
use nfp_udp_echo.Socket.{
  failed, moved, negative, short, Proc, spin, read, write, emit, advance_proc,
}
use nfp_udp_echo.Socket.Words.{append-nil, to_le, length-to_le, write_word}
use nfp_udp_echo.Socket.Runs.{advance-read, advance-write}

suc_eq-zero : (n : ℕ) → (suc n == 0) ≡ false
suc_eq-zero n = ground arith

drop_full : (xs : List ℕ) → drop (length xs) xs ≡ []
drop_full [] = refl
drop_full (x ∷ xs) = drop_full xs

module _ {ℓ} {A : Type ℓ} where
  -- `while (len < total) { ret = read(fd, buf + len, total - len); ... len += ret; }`, with `left`
  -- bytes to go; `fail` is what is done when `read` returns -1.
  unfoldable pub read_all : ℕ → ℕ → List ℕ → Proc A → (List ℕ → Proc A) → Proc A
  read_all zero left buf fail k = if left == 0 then k buf else spin
  read_all (suc rounds) left buf fail k =
      let again = read left (λ r bytes.
        let rest = read_all rounds (left - length bytes) (buf ++ bytes) fail k in
        if negative r then fail else rest) in
      if left == 0 then k buf else again

  -- The same for `write`, with `bytes` to go.
  unfoldable pub write_all : ℕ → List ℕ → Proc A → Proc A → Proc A
  write_all zero [] fail k = k
  write_all zero (_ ∷ _) fail k = spin
  write_all (suc rounds) [] fail k = k
  write_all (suc rounds) (b ∷ bytes) fail k =
      write (b ∷ bytes)
        (λ r. elim r [ failed ↦ fail | moved n ↦ write_all rounds (drop n (b ∷ bytes)) fail k ])

  -- Words written one by one, each with `if (ret < sizeof(temp))` behind it.
  abbrev pub write_words : List ℕ → Proc A → Proc A → Proc A
  write_words [] fail k = k
  write_words (x ∷ xs) fail k =
      write_word x (λ r. if short r 8 then fail else write_words xs fail k)

  read_all_done :
      (rounds left : ℕ) (buf : List ℕ) (fail : Proc A) (k : List ℕ → Proc A)
      → left ≡ 0
      → read_all rounds left buf fail k ≡ k buf
  unfolding read_all
  read_all_done zero left buf fail k e = rw ((==_iff left 0).1 e) refl
  read_all_done (suc rounds) left buf fail k e = rw ((==_iff left 0).1 e) refl

  write_all_done :
      (rounds : ℕ) (bytes : List ℕ) (fail k : Proc A)
      → bytes ≡ []
      → write_all rounds bytes fail k ≡ k
  unfolding write_all
  write_all_done zero bytes fail k e = rw e refl
  write_all_done (suc rounds) bytes fail k e = rw e refl

  -- One round reads what stands in the queue.
  pub advance-read_all :
      (rounds : ℕ) (xs buf ys : List ℕ) (fail : Proc A) (k : List ℕ → Proc A)
      → advance_proc (read_all (suc rounds) (length xs) buf fail k) (xs ++ ys)
        ≡ advance_proc (k (buf ++ xs)) ys
  unfolding read_all
  advance-read_all rounds [] buf ys fail k = ap (λ b. advance_proc (k b) ys) (sym (append-nil buf))
  advance-read_all rounds (x ∷ xs) buf ys fail k = rw (suc_eq-zero (length xs)) (
      advance-read (suc (length xs)) (x ∷ xs) ys _ refl
      ∙ ap (λ p. advance_proc p ys)
          (read_all_done rounds (suc (length xs) - suc (length xs)) (buf ++ (x ∷ xs)) fail k
            (omega arith)))

  pub advance-write_all :
      (rounds : ℕ) (bytes q : List ℕ) (fail k : Proc A)
      → advance_proc (write_all (suc rounds) bytes fail k) q ≡ emit bytes (advance_proc k q)
  unfolding write_all
  advance-write_all rounds [] q fail k = refl
  advance-write_all rounds (b ∷ bytes) q fail k =
      advance-write (b ∷ bytes) q _
      ∙ ap (λ p. emit (b ∷ bytes) (advance_proc p q))
          (write_all_done rounds (drop (length bytes) bytes) fail k (drop_full bytes))

  pub advance-write_word :
      (x : ℕ) (q : List ℕ) (fail k : Proc A)
      → advance_proc (write_word x (λ r. if short r 8 then fail else k)) q
        ≡ emit (to_le 8 x) (advance_proc k q)
  advance-write_word x q fail k =
      advance-write (to_le 8 x) q _
      ∙ ap (λ n. emit (to_le 8 x) (advance_proc (if ltb n 8 then fail else k) q)) (length-to_le 8 x)

  -- A structure of `n` bytes written in full passes its test.
  pub advance-write_struct :
      (n : ℕ) (bytes q : List ℕ) (fail k : Proc A)
      → length bytes ≡ n
      → advance_proc (write bytes (λ r. if short r n then fail else k)) q
        ≡ emit bytes (advance_proc k q)
  advance-write_struct n bytes q fail k e =
      advance-write bytes q (λ r. if short r n then fail else k)
      ∙ ap (λ m. emit bytes (advance_proc (if ltb m n then fail else k) q)) e
      ∙ ap (λ b. emit bytes (advance_proc (if b then fail else k) q)) (ltb-false n n (omega arith))
