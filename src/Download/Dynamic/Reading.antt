-- ===== src/Download/Dynamic/Reading.antt =====
-- The loop that copies a file: it sends the file, if the file is small enough for an int.
use bomba.Base.{
  ℕ, zero, suc, ◌+◌, ◌-◌, ◌^◌, ◌≤◌, ◌<◌, min, true, false, ◌++◌, Bytes, length, take, drop,
  drop-drop, drop_all, take-append-drop, ltb, Bool-cases, inl, inr, ltb→lt, ◌≡◌, refl, sym, ap, ◌∙◌,
  arith, append_assoc, append-nil,
}
use bomba.Base.Int.{pos}
use bomba.Base.Outcome.{ok, diverges}
use bomba.Core.Flags.{int_32}
use bomba.Core.Integer.{narrow, narrow-InRange}
use bomba.Download.Dynamic.{over, again, copy_round, copy_loop}

-- One round, where the number of bytes left is what the int says.
copy_round-again :
    (position left : ℕ) (file output : Bytes)
    → position < length file
    → narrow int_32 (pos (length file - position)) ≡ pos left
    → copy_round position file output
      ≡ again (position + min 4096 left) (output ++ take (min 4096 left) (drop position file))
unfolding copy_round
copy_round-again position left file output more same =
    let test : ltb position (length file) ≡ true = ground (arith, more) in
    rw (copy_round, test, same) refl

copy_round-over :
    (position : ℕ) (file output : Bytes)
    → ltb position (length file) ≡ false
    → copy_round position file output ≡ over
unfolding copy_round
copy_round-over position file output done = rw (copy_round, done) refl

copy_loop-again :
    (fuel position next : ℕ) (file output copied : Bytes)
    → copy_round position file output ≡ again next copied
    → copy_loop (suc fuel) position file output ≡ copy_loop fuel next file copied
unfolding copy_loop
copy_loop-again fuel position next file output copied h = rw (copy_loop, h) refl

copy_loop-round :
    (fuel position left : ℕ) (file output : Bytes)
    → position < length file
    → narrow int_32 (pos (length file - position)) ≡ pos left
    → copy_loop (suc fuel) position file output
      ≡ copy_loop fuel
          (position + min 4096 left)
          file
          (output ++ take (min 4096 left) (drop position file))
copy_loop-round fuel position left file output more same =
    copy_loop-again fuel position (position + min 4096 left) file output
      (output ++ take (min 4096 left) (drop position file))
      (copy_round-again position left file output more same)

copy_loop-over :
    (fuel position : ℕ) (file output : Bytes)
    → ltb position (length file) ≡ false
    → copy_loop (suc fuel) position file output ≡ ok tt output
unfolding copy_loop
copy_loop-over fuel position file output done =
    rw (copy_loop, copy_round-over position file output done) refl

copy_loop-from :
    (fuel position : ℕ) (file output : Bytes)
    → length file < 2 ^ 31
    → position ≤ length file
    → length file - position < fuel
    → copy_loop fuel position file output ≡ ok tt (output ++ drop position file)
copy_loop-from zero position file output small inside enough = absurd (omega (arith, enough))
copy_loop-from (suc fuel) position file output small inside enough =
    elim (Bool-cases (ltb position (length file))) [
      | inr done ↦
          let end : length file ≡ position = ground (arith, done, inside) in
          copy_loop-over fuel position file output done
          ∙ ap (λ (l : Bytes). ok tt l)
              (sym (append-nil output)
                ∙ ap (λ (l : Bytes). output ++ l)
                    (sym (drop_all file) ∙ ap (λ (n : ℕ). drop n file) end))
      | inl more ↦
          let less = ltb→lt position (length file) more in
          let left = length file - position in
          let block = min 4096 left in
          copy_loop-round fuel position left file output less
            (narrow-InRange int_32 (pos left) (omega (arith, small)))
          ∙ copy_loop-from fuel (position + block) file (output ++ take block (drop position file))
              small (omega (arith, less)) (omega (arith, less, enough))
          ∙ ap (λ (l : Bytes). ok tt l)
              (append_assoc output (take block (drop position file)) (drop (position + block) file)
                ∙ ap (λ (l : Bytes). output ++ l)
                    (ap (λ (l : Bytes). take block (drop position file) ++ l)
                        (drop-drop position block file)
                      ∙ take-append-drop block (drop position file)))
    ]

-- A round that changes nothing is repeated for as long as there is fuel.
repeated :
    (fuel : ℕ) (file output : Bytes)
    → copy_round 0 file output ≡ again 0 output
    → copy_loop fuel 0 file output ≡ diverges
unfolding copy_loop
repeated zero file output still = refl
repeated (suc fuel) file output still =
    copy_loop-again fuel 0 0 file output output still ∙ repeated fuel file output still

pub copy_loop-whole :
    (file output : Bytes)
    → length file < 2 ^ 31
    → copy_loop (suc (length file)) 0 file output ≡ ok tt (output ++ file)
copy_loop-whole file output small =
    copy_loop-from (suc (length file)) 0 file output small (omega arith) (omega arith)

-- Of a file of exactly four gibibytes no byte is ever copied: the number of bytes that are left is
-- zero as an int, so the first round leaves the position and what was put out as they are, and
-- whatever the fuel is, the loop does not come to its end.
pub copy_loop-endless :
    (fuel : ℕ) (file output : Bytes)
    → length file ≡ 2 ^ 32
    → (copy_round 0 file output ≡ again 0 output) × (copy_loop fuel 0 file output ≡ diverges)
unfolding copy_loop
copy_loop-endless fuel file output e =
    let still : copy_round 0 file output ≡ again 0 output =
      copy_round-again 0 0 file output (omega (arith, e)) (
        ap (λ (n : ℕ). narrow int_32 (pos n)) {x = length file - 0} {y = 2 ^ 32} (omega (arith, e))
        ∙ (unfold narrow in refl))
      ∙ ap (λ (l : Bytes). again 0 l) (append-nil output) in
    (still, repeated fuel file output still)
