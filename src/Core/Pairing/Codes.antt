-- ===== src/Core/Pairing/Codes.antt =====
-- The codes: what `generateCode` draws, and that what a user types back is read as the code drawn.
use cere_worker.Prelude.{
  ℕ, zero, suc, ◌<◌, ◌≡◌, refl, ap, Text, is_space, leb, ◌==◌, Bool, true, false, ◌&&◌, ◌||◌, not,
  [], ◌∷◌, length, take, drop, take-append-drop, All, All-append, length-append, filter,
  filter-append, filter-id, arith, ℕ_discrete,
}
use cere_worker.Core.Pairing.{
  alphabet_at, generate_from, generate_code, format_code, upper, to_upper, normalize_code,
  code_length,
}

-- Digits and capitals, among them all of the alphabet.
abbrev is_letter : ℕ → Bool
is_letter c = (leb b'2' c && leb c b'9') || (leb b'A' c && leb c b'Z')

abbrev pub IsCode : Text → Type 0
IsCode code = (length code ≡ code_length) × All (λ c. is_letter c ≡ true) code

one_letter : Text → Bool
one_letter (c ∷ []) = is_letter c
one_letter _ = false

-- Whether the entries of the alphabet before a place are letters.
letters_before : ℕ → Bool
letters_before zero = true
letters_before (suc last) = letters_before last && one_letter (alphabet_at last)

letters_before_at :
    (i place : ℕ) → i < place → letters_before place ≡ true → one_letter (alphabet_at i) ≡ true
unfolding letters_before
letters_before_at i zero early h = absurd (omega arith)
letters_before_at i (suc last) early h = elim (ℕ_discrete i last) [
  | yes here ↦ let entry : one_letter (alphabet_at last) ≡ true = ground (arith, h) in rw here entry
  | no elsewhere ↦ letters_before_at i last (omega arith) (ground (arith, h))
]

letter_table : letters_before 32 ≡ true
unfolding letters_before one_letter
letter_table = refl

one_letter-IsCode :
    (s : Text) → one_letter s ≡ true → (length s ≡ 1) × All (λ c. is_letter c ≡ true) s
unfolding one_letter
one_letter-IsCode (c ∷ []) h = (refl, (h, tt))
one_letter-IsCode [] h = cc
one_letter-IsCode (c ∷ d ∷ s) h = cc

generate_from-IsCode :
    (rand : ℕ → ℕ)
    → ((k : ℕ) → rand k < 32)
    → (left k : ℕ)
    → (length (generate_from rand left k) ≡ left)
      × All (λ c. is_letter c ≡ true) (generate_from rand left k)
unfolding generate_from
generate_from-IsCode rand h zero k = (refl, tt)
generate_from-IsCode rand h (suc left) k =
    let (one, letter) =
      one_letter-IsCode (alphabet_at (rand k)) (letters_before_at (rand k) 32 (h k) letter_table) in
    let (rest, letters) = generate_from-IsCode rand h left (suc k) in
    (
      omega (
        arith,
        length-append (alphabet_at (rand k)) (generate_from rand left (suc k)),
        one,
        rest,
      ),
      All-append _ (alphabet_at (rand k)) _ letter letters,
    )

pub generate_code-IsCode :
    (rand : ℕ → ℕ) (k : ℕ) → ((k : ℕ) → rand k < 32) → IsCode (generate_code rand k)
unfolding generate_code
generate_code-IsCode rand k h = generate_from-IsCode rand h code_length k

abbrev is_kept : ℕ → Bool
is_kept c = not (c == b'-' || is_space c)

letter-is_kept : (c : ℕ) → is_letter c ≡ true → is_kept c ≡ true
letter-is_kept c h = ground arith

upper-letter : (c : ℕ) → is_letter c ≡ true → upper c ≡ c ∷ []
unfolding upper
upper-letter c h = ground arith

to_upper-letters : (s : Text) → All (λ c. is_letter c ≡ true) s → to_upper s ≡ s
unfolding to_upper
to_upper-letters [] h = refl
to_upper-letters (c ∷ s) (l, h) = rw (upper-letter c l, to_upper-letters s h)

letters-kept : (s : Text) → All (λ c. is_letter c ≡ true) s → All (λ c. is_kept c ≡ true) s
letters-kept [] h = tt
letters-kept (c ∷ s) (l, h) = (letter-is_kept c l, letters-kept s h)

filter-dash : (s : Text) → filter is_kept (b'-' ∷ s) ≡ filter is_kept s
unfolding filter
filter-dash s = refl

filter-format_code : (code : Text) → filter is_kept (format_code code) ≡ filter is_kept code
unfolding format_code
filter-format_code code =
    rw
      (
        filter-append is_kept (take 4 code) (b'-' ∷ drop 4 code),
        filter-dash (drop 4 code),
        ← filter-append is_kept (take 4 code) (drop 4 code),
      )
      (ap (filter is_kept) (take-append-drop 4 code))

-- Typed back as it was shown, a code is read as itself.
pub normalize_code-format_code :
    (code : Text) → IsCode code → normalize_code (format_code code) ≡ code
unfolding normalize_code
normalize_code-format_code code (_, h) =
    rw (filter-format_code code, filter-id is_kept code (letters-kept code h))
      (to_upper-letters code h)
