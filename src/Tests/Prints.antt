-- ===== src/Tests/Prints.antt =====
-- A sample run of src/targets/print.c.
use gravelbox.Base.{ℕ, ◌≡◌, refl, [], ◌∷◌, codes, some, All, ◌⊎◌, arith}
use gravelbox.Utils.{done, errno}
use gravelbox.Targets.Print.{File, Log, sending, complaint, closing, main}
use gravelbox.Targets.Print.Copied.{closed, given, Shown}
use gravelbox.Targets.Print.Exits.{Answers, main_exits}

-- Five bytes in two calls; a file that is not there; and one whose second call fails.
abbrev whole : File
whole = record {
  name = codes "a";
  opened = done 3;
  sized = done 5;
  sent = done 2 ∷ done 3 ∷ done 1 ∷ done 1 ∷ done 1 ∷ [];
}

abbrev missing : File
missing = record { name = codes "b"; opened = errno 2; sized = done 0; sent = [] }

abbrev broken : File
broken = record { name = codes "c"; opened = done 3; sized = done 2; sent = done 1 ∷ errno 5 ∷ [] }

shows :
    main (whole ∷ missing ∷ broken ∷ [])
    ≡ some (
      1,
      sending 3 0 5
          ∷ sending 3 2 3
          ∷ closing 3
          ∷ complaint (codes "b")
          ∷ sending 3 0 2
          ∷ sending 3 1 1
          ∷ complaint (codes "c")
          ∷ closing 3
          ∷ [],
    )
unfolding main
shows = refl

whole-Answers : Answers whole
whole-Answers = (ground arith, λ size h. ground arith)

broken-Answers : Answers broken
broken-Answers = (ground arith, λ size h. ground arith)

missing-Answers : Answers missing
missing-Answers = (tt, λ size h. ground arith)

main_exits_example :
    (code : ℕ) × (log : Log) × (main (whole ∷ missing ∷ broken ∷ []) ≡ some (code, log))
    × (closed log ≡ given (whole ∷ missing ∷ broken ∷ []))
    × (((code ≡ 0) × All Shown (whole ∷ missing ∷ broken ∷ []))
        ⊎ ((code ≡ 1) × (All Shown (whole ∷ missing ∷ broken ∷ []) → ⊥)))
main_exits_example =
    main_exits (whole ∷ missing ∷ broken ∷ [])
      (whole-Answers, (missing-Answers, (broken-Answers, tt)))
