-- ===== src/Keys/Tuples.antt =====
-- The operation keys of src/database/tokenOperation.ts tell their operations apart.
use ev_web3_award_system.Prelude.{
  ℕ, zero, suc, ◌+◌, ◌-◌, ◌*◌, ◌/◌, ◌%◌, ◌≤◌, ◌<◌, ◌≡◌, refl, sym, ap, ◌∙◌, ◌⊎◌, inl, inr, [], ◌∷◌,
  ◌++◌, ltb, length, Bool-cases, arith,
}
use ev_web3_award_system.Text.{Text}
use ev_web3_award_system.Keys.{
  decimal_digits, decimal, length_delimited, award_operation_key, spend_operation_key,
  reservation_operation_key,
}

abbrev AllDigits : Text → Type 0
AllDigits [] = Unit
AllDigits (c ∷ s) = ((b'0' ≤ c) × (c ≤ b'9')) × AllDigits s

-- The number that a text of digits stands for.
value_from : ℕ → Text → ℕ
value_from acc [] = acc
value_from acc (c ∷ s) = value_from (acc * 10 + (c - b'0')) s

AllDigits-append : (s t : Text) → AllDigits s → AllDigits t → AllDigits (s ++ t)
AllDigits-append [] t h k = k
AllDigits-append (c ∷ s) t (d, h) k = (d, AllDigits-append s t h k)

value_from-append :
    (acc : ℕ) (s : Text) (c : ℕ)
    → value_from acc (s ++ (c ∷ [])) ≡ value_from acc s * 10 + (c - b'0')
unfolding value_from
value_from-append acc [] c = refl
value_from-append acc (d ∷ s) c = value_from-append (acc * 10 + (d - b'0')) s c

decimal_digits-AllDigits : (rounds n : ℕ) → n < 10 + rounds → AllDigits (decimal_digits rounds n)
unfolding decimal_digits
decimal_digits-AllDigits zero n h = ((omega arith, omega arith), tt)
decimal_digits-AllDigits (suc rounds) n h = elim (Bool-cases (ltb n 10)) [
  | inl small ↦ rw small ((omega arith, ground arith), tt)
  | inr large ↦ rw large (
      AllDigits-append (decimal_digits rounds (n / 10)) _
        (decimal_digits-AllDigits rounds (n / 10) (ground arith)) ((omega arith, omega arith), tt))
]

decimal_digits-value : (rounds n : ℕ) → n < 10 + rounds → value_from 0 (decimal_digits rounds n) ≡ n
unfolding decimal_digits value_from
decimal_digits-value zero n h = omega arith
decimal_digits-value (suc rounds) n h = elim (Bool-cases (ltb n 10)) [
  | inl small ↦ rw small (omega arith)
  | inr large ↦ rw large (
      omega (
        arith,
        value_from-append 0 (decimal_digits rounds (n / 10)) (b'0' + n % 10),
        decimal_digits-value rounds (n / 10) (ground arith),
      ))
]

-- Digits before a colon are the same in equal texts, and so is the rest.
digits_until_colon :
    (s t x y : Text)
    → AllDigits s
    → AllDigits t
    → s ++ (b':' ∷ x) ≡ t ++ (b':' ∷ y)
    → (s ≡ t) × (x ≡ y)
digits_until_colon [] [] x y h k e = (refl, cc)
digits_until_colon [] (d ∷ t) x y h (k, ks) e = ground (arith)
digits_until_colon (c ∷ s) [] x y (h, hs) k e = ground (arith)
digits_until_colon (c ∷ s) (d ∷ t) x y (h, hs) (k, ks) e =
    let (same, rest) = digits_until_colon s t x y hs ks (cc) in (cc, rest)

same_length_split : (a b x y : Text) → length a ≡ length b → a ++ x ≡ b ++ y → (a ≡ b) × (x ≡ y)
same_length_split [] [] x y h e = (refl, e)
same_length_split [] (d ∷ b) x y h e = absurd (omega (arith, h))
same_length_split (c ∷ a) [] x y h e = absurd (omega (arith, h))
same_length_split (c ∷ a) (d ∷ b) x y h e =
    let (same, rest) = same_length_split a b x y (omega (arith, h)) (cc) in (cc, rest)

length_prefix :
    (m n : ℕ) (x y : Text) → decimal m ++ (b':' ∷ x) ≡ decimal n ++ (b':' ∷ y) → (m ≡ n) × (x ≡ y)
unfolding decimal
length_prefix m n x y e =
    let (same, rest) =
      digits_until_colon (decimal_digits m m) (decimal_digits n n) x y
        (decimal_digits-AllDigits m m (omega arith)) (decimal_digits-AllDigits n n (omega arith))
        e in
    (
      sym (decimal_digits-value m m (omega arith))
          ∙ ap (value_from 0) same
          ∙ decimal_digits-value n n (omega arith),
      rest,
    )

length_delimited-injective :
    (a b c d : Text) → length_delimited a b ≡ length_delimited c d → (a ≡ c) × (b ≡ d)
unfolding length_delimited
length_delimited-injective a b c d e =
    let (size, rest) = length_prefix (length a) (length c) _ _ e in
    let (first, last) = same_length_split a c _ _ size rest in
    let (_, second) = length_prefix (length b) (length d) b d last in (first, second)

-- What an operation key is made for.
pub data Subject : Type 0 where
  award_of : (provider_id session_id : Text) → Subject
  spend_of : (uid idempotency_key : Text) → Subject
  reservation_of : (reservation_id : Text) → Subject

abbrev pub key_of : (Text → Text) → Subject → Text
key_of sha256 (award_of p s) = award_operation_key sha256 p s
key_of sha256 (spend_of u k) = spend_operation_key sha256 u k
key_of sha256 (reservation_of r) = reservation_operation_key r

-- What is hashed for it.
abbrev pub hashed : Subject → Text
hashed (award_of p s) = length_delimited p s
hashed (spend_of u k) = length_delimited u k
hashed (reservation_of r) = []

-- Texts with different first units differ.
apart : {A : Type 0} (c d : ℕ) (s t : Text) → ◌≡◌ {A = Text} (c ∷ s) (d ∷ t) → (c < d) ⊎ (d < c) → A
apart c d s t e h = let same : c ≡ d = cc in absurd (omega (arith, h, same))

-- If SHA-256 does not collide on the two texts that are hashed for them, two operations with the same key are the same:
-- awards of one provider and session, spends of one user and idempotency key, or completions of one reservation.
pub operation_key-injective :
    (sha256 : Text → Text) (a b : Subject)
    → (sha256 (hashed a) ≡ sha256 (hashed b) → hashed a ≡ hashed b)
    → key_of sha256 a ≡ key_of sha256 b
    → a ≡ b
unfolding award_operation_key spend_operation_key reservation_operation_key
operation_key-injective sha256 (award_of p s) (award_of q t) h e =
    let (first, second) = length_delimited-injective p s q t (h (cc)) in cc
operation_key-injective sha256 (award_of p s) (spend_of u k) h e = apart _ _ _ _ e (omega arith)
operation_key-injective sha256 (award_of p s) (reservation_of r) h e = apart _ _ _ _ e (omega arith)
operation_key-injective sha256 (spend_of u k) (award_of p s) h e = apart _ _ _ _ e (omega arith)
operation_key-injective sha256 (spend_of u k) (spend_of v l) h e =
    let (first, second) = length_delimited-injective u k v l (h (cc)) in cc
operation_key-injective sha256 (spend_of u k) (reservation_of r) h e = apart _ _ _ _ e (omega arith)
operation_key-injective sha256 (reservation_of r) (award_of p s) h e = apart _ _ _ _ e (omega arith)
operation_key-injective sha256 (reservation_of r) (spend_of u k) h e = apart _ _ _ _ e (omega arith)
operation_key-injective sha256 (reservation_of r) (reservation_of s) h e = cc
