-- ===== src/Fifo/Request.antt =====
-- What the server reads out of a request.
use cs_primer.Prelude.{
  ℕ, zero, suc, ◌+◌, ◌-◌, ◌*◌, ◌/◌, ◌%◌, ◌<◌, ◌≡◌, refl, ◌∙◌, ap, sym, List, [], ◌∷◌, ◌++◌, some,
  true, false, ltb, ◌==◌, take, length, length-append, arith, Bool-cases, inl, inr,
}
use mathlib.Core.List.{append_assoc}
use cs_primer.Posix.Text.{Str, pos, atoi, digits_value, signed_value, is_digit}
use cs_primer.Fifo.{
  digits, decimal, max_size, request, c_string, strip_newline, split_blank, from_parts,
  parse_request,
}

-- Only digits; no byte of value 0.
abbrev IsDigits : Str → Type 0
IsDigits [] = Unit
IsDigits (c ∷ s) = (is_digit c ≡ true) × IsDigits s

abbrev pub IsText : Str → Type 0
IsText [] = Unit
IsText (c ∷ s) = (0 < c) × IsText s

append-IsDigits : (a b : Str) → IsDigits a → IsDigits b → IsDigits (a ++ b)
append-IsDigits [] b x y = y
append-IsDigits (c ∷ a) b x y = (x.0, append-IsDigits a b x.1 y)

digits_value-append :
    (acc : ℕ) (a b : Str)
    → IsDigits a
    → digits_value acc (a ++ b) ≡ digits_value (digits_value acc a) b
unfolding digits_value
digits_value-append acc [] b d = refl
digits_value-append acc (c ∷ a) b d = rw d.0 (digits_value-append (acc * 10 + (c - b'0')) a b d.1)

digits-IsDigits : (fuel n : ℕ) → IsDigits (digits fuel n)
unfolding digits
digits-IsDigits zero n = tt
digits-IsDigits (suc fuel) n = elim (Bool-cases (ltb n 10)) [
  | inl e ↦ rw e (ground (arith, e), tt)
  | inr e ↦
      rw e (
        append-IsDigits (digits fuel (n / 10)) _ (digits-IsDigits fuel (n / 10)) (ground arith, tt))
]

one_digit : (acc n : ℕ) → n < 10 → digits_value acc ((b'0' + n) ∷ []) ≡ acc * 10 + n
unfolding digits_value
one_digit acc n h = ground arith

digits_value-digits : (fuel n : ℕ) → n < fuel → digits_value 0 (digits fuel n) ≡ n
unfolding digits
digits_value-digits zero n h = absurd (omega arith)
digits_value-digits (suc fuel) n h = elim (Bool-cases (ltb n 10)) [
  | inl e ↦ let le : n < 10 = ground (arith, e) in rw e (one_digit 0 n le ∙ omega arith)
  | inr e ↦
      let front = digits_value-digits fuel (n / 10) (ground (arith, h, e)) in
      rw e (
        digits_value-append 0 (digits fuel (n / 10)) _ (digits-IsDigits fuel (n / 10))
        ∙ ap (λ acc. digits_value acc ((b'0' + n % 10) ∷ [])) front
        ∙ one_digit (n / 10) (n % 10) (omega arith)
        ∙ omega arith)
]

atoi-digits : (s : Str) → IsDigits s → atoi s ≡ pos (digits_value 0 s)
unfolding atoi signed_value digits_value
atoi-digits [] d = refl
atoi-digits (c ∷ s) d = ground (arith, d.0)

IsDigits-IsText : (s : Str) → IsDigits s → IsText s
IsDigits-IsText [] d = tt
IsDigits-IsText (c ∷ s) d = (ground (arith, d.0), IsDigits-IsText s d.1)

append-IsText : (a b : Str) → IsText a → IsText b → IsText (a ++ b)
append-IsText [] b x y = y
append-IsText (c ∷ a) b x y = (x.0, append-IsText a b x.1 y)

c_string-take :
    (n : ℕ) (s : Str) (g : List ℕ) → IsText s → length s < n → c_string (take n (s ++ 0 ∷ g)) ≡ s
unfolding c_string
c_string-take zero s g t h = absurd (omega arith)
c_string-take (suc n) [] g t h = refl
c_string-take (suc n) (c ∷ s) g t h =
    let other : (c == 0) ≡ false = ground (arith, t.0) in
    rw other (ap (λ x. c ∷ x) (c_string-take n s g t.1 (omega arith)))

strip_newline-append : (s : Str) → strip_newline (s ++ 10 ∷ []) ≡ s
unfolding strip_newline
strip_newline-append [] = refl
strip_newline-append (c ∷ []) = refl
strip_newline-append (c ∷ d ∷ s) = ap (λ x. c ∷ x) (strip_newline-append (d ∷ s))

split_blank-append : (a b : Str) → IsDigits a → split_blank (a ++ (b' ' ∷ b)) ≡ some (a, b)
unfolding split_blank
split_blank-append [] b d = refl
split_blank-append (c ∷ a) b d =
    let other : (c == b' ') ≡ false = ground (arith, d.0) in
    rw (other, split_blank-append a b d.1) refl

parse_at :
    (buf : List ℕ) (ds path : Str)
    → IsDigits ds
    → c_string buf ≡ (ds ++ (b' ' ∷ path)) ++ 10 ∷ []
    → parse_request buf ≡ some (atoi ds, path)
unfolding parse_request
parse_at buf ds path d e =
    ap (λ x. from_parts (split_blank (strip_newline x))) e
    ∙ ap (λ x. from_parts (split_blank x)) (strip_newline-append (ds ++ (b' ' ∷ path)))
    ∙ ap from_parts (split_blank-append ds path d)

-- fifo_server.c reads out of the buffer that fifo_client.c sends for the line `path` exactly the
-- process id and the path, where the path has no byte 0 and the text fits into the buffer.
pub request_round_trip :
    (pid : ℕ) (path : Str) (garbage : List ℕ)
    → IsText path
    → length (decimal pid) + length path + 2 < max_size
    → parse_request (request pid (path ++ 10 ∷ []) garbage) ≡ some (pos pid, path)
unfolding request decimal
request_round_trip pid path garbage t fits =
    let ds = digits (suc pid) pid in
    let d = digits-IsDigits (suc pid) pid in
    let s = ds ++ (b' ' ∷ path) in
    let line = s ++ 10 ∷ [] in
    let whole : ds ++ (b' ' ∷ (path ++ 10 ∷ []) ++ 0 ∷ garbage) ≡ line ++ 0 ∷ garbage =
      sym (append_assoc ds (b' ' ∷ (path ++ 10 ∷ [])) (0 ∷ garbage))
      ∙ ap (λ x. x ++ 0 ∷ garbage) (sym (append_assoc ds (b' ' ∷ path) (10 ∷ []))) in
    let text_line =
      append-IsText s (10 ∷ [])
        (append-IsText ds (b' ' ∷ path) (IsDigits-IsText ds d) (omega arith, t))
        (omega arith, tt) in
    let fits_line : length line < max_size =
      omega (arith, fits, length-append ds (b' ' ∷ path), length-append s (10 ∷ [])) in
    let same : c_string (take max_size (ds ++ (b' ' ∷ (path ++ 10 ∷ []) ++ 0 ∷ garbage))) ≡ line =
      ap (λ x. c_string (take max_size x)) whole
      ∙ c_string-take max_size line garbage text_line fits_line in
    parse_at (take max_size (ds ++ (b' ' ∷ (path ++ 10 ∷ []) ++ 0 ∷ garbage))) ds path d same
    ∙ ap (λ z. some (z, path))
        (atoi-digits ds d ∙ ap pos (digits_value-digits (suc pid) pid (omega arith)))
