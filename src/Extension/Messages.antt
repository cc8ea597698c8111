-- ===== src/Extension/Messages.antt =====
-- Messages of conditions that are cut.
use operator_controller.Prelude.{
  ℕ, zero, suc, ◌+◌, ◌-◌, ◌≤◌, ◌<◌, ◌≡◌, refl, ap, ◌∙◌, List, [], ◌∷◌, ◌++◌, false, leb, length,
  take, length-take, length-append, inl, inr, ◌⊎◌, Bool-cases, arith,
}
use operator_controller.Extension.Conditions.{
  truncate_message, max_condition_message_length, truncation_suffix,
}

kept_length :
    (message : List ℕ)
    → leb (length message) max_condition_message_length ≡ false
    → length (take (max_condition_message_length - length truncation_suffix) message)
      ≡ max_condition_message_length - length truncation_suffix
kept_length message h = length-take _ message (ground arith)

-- What is taken is followed by the rest.
taken_first : (n : ℕ) (bytes : List ℕ) → (rest : List ℕ) × (bytes ≡ take n bytes ++ rest)
taken_first zero bytes = (bytes, refl)
taken_first (suc n) [] = ([], refl)
taken_first (suc n) (b ∷ bytes) =
    let (rest, e) = taken_first n bytes in (rest, ap (λ more. b ∷ more) e)

-- `cut` begins as the message does, and the suffix stands for what is missing
abbrev pub IsCut : List ℕ → List ℕ → Type 0
IsCut message cut =
    (kept : List ℕ) × (rest : List ℕ) × (message ≡ kept ++ rest) × (cut ≡ kept ++ truncation_suffix)

-- A message of at most 32768 bytes is kept as it is in a condition; one that is longer is cut there
-- to exactly 32768 bytes: a first part of it, followed by the suffix.
pub truncate_message-fits :
    (message : List ℕ)
    → ((length message ≤ 32768) × (truncate_message message ≡ message))
      ⊎ ((32768 < length message)
          × (length (truncate_message message) ≡ 32768)
          × IsCut message (truncate_message message))
unfolding truncate_message
truncate_message-fits message =
    elim (Bool-cases (leb (length message) max_condition_message_length)) [
      | inl e ↦ rw e (inl (ground arith, refl))
      | inr e ↦
          let first = take (max_condition_message_length - length truncation_suffix) message in
          let all = length-append first truncation_suffix in
          let (rest, split) =
            taken_first (max_condition_message_length - length truncation_suffix) message in
          rw e (
            inr (
              ground arith,
              all ∙ ap (λ n. n + length truncation_suffix) (kept_length message e) ∙ ground arith,
              (first, rest, split, refl),
            ))
    ]
