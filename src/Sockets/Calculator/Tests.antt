-- ===== src/Sockets/Calculator/Tests.antt =====
-- The calculator at concrete inputs.
use mathlib.Core.List.{flatten}
use cs_primer.Prelude.{ℕ, ◌≡◌, refl, arith, List, [], ◌∷◌}
use cs_primer.Posix.{done}
use cs_primer.Posix.Loops.{sent, is_write}
use cs_primer.Posix.Sample.{sample, sample-Feeds}
use cs_primer.Sockets.Calculator.{int_bytes, op_message, serve_client}
use cs_primer.Sockets.Calculator.Wire.{fold}
use cs_primer.Sockets.Calculator.Serve.{serve_client_answers}

-- 7 - 9 - 1 is -3, over three reads.
abbrev difference : List (List ℕ)
difference = (7 ∷ 0 ∷ []) ∷ (0 ∷ 0 ∷ 9 ∷ 0 ∷ 0 ∷ 0 ∷ 1 ∷ []) ∷ (0 ∷ 0 ∷ 0 ∷ b'-' ∷ []) ∷ []

difference_value : fold b'-' 7 (9 ∷ 1 ∷ []) ≡ 0xffff_fffd
unfolding fold
difference_value = refl

serve_client_answers_example :
    let (r, l') = serve_client 4 4 (sample ((3 ∷ []) ∷ difference)) [] in
    (r ≡ done tt) × (sent is_write 4 l' ≡ int_bytes (fold b'-' 7 (9 ∷ 1 ∷ [])))
unfolding op_message flatten
serve_client_answers_example =
    serve_client_answers 4 4 (sample ((3 ∷ []) ∷ difference)) [] 7 (9 ∷ 1 ∷ []) b'-' difference
      (sample-Feeds ((3 ∷ []) ∷ difference)) refl (omega arith, (omega arith, (omega arith, tt)))
      (omega arith, (omega arith, (omega arith, tt))) refl (omega arith)
