-- ===== src/Common/Log/Buffer.antt =====
-- Src/Common/PrintLog.cpp: which lines of the log stay in the buffer.
use shuchuang.Shared.{
  ℕ, zero, suc, if-rule, ap, sym, ◌∙◌, ◌⊎◌, inl, inr, leb, nat_beq_iff, ◌+◌, ◌-◌, ◌^◌, ◌≤◌, ◌<◌,
  ◌≡◌, ◌↔◌, refl, true, false, List, [], ◌∷◌, ◌++◌, length, take, length-append, arith, ◌==◌,
  nat_key, if◌then◌else◌,
}
use shuchuang.Common.Log.{Line, empty_line, room, print, print_message}

room_within : (n : ℕ) → n ≤ 8191 → room n ≡ 8191 - n
unfolding room
room_within n h = omega (arith, h)

room_beyond : (n : ℕ) → 8191 < n → n < 2 ^ 31 → 2 ≤ room n
unfolding room
room_beyond n h k = omega (arith, h, k)

length-take : (k : ℕ) (xs : List ℕ) → length (take k xs) ≤ k
length-take zero xs = omega arith
length-take (suc k) [] = omega arith
length-take (suc k) (x ∷ xs) = omega (arith, length-take k xs)

take_whole : (k : ℕ) (xs : List ℕ) → length xs ≤ k → take k xs ≡ xs
take_whole zero [] h = refl
take_whole zero (x ∷ xs) h = absurd (omega (arith, h))
take_whole (suc k) [] h = refl
take_whole (suc k) (x ∷ xs) h = ap (λ ys. x ∷ ys) (take_whole k xs (omega (arith, h)))

take-append :
    (k : ℕ) (xs ys : List ℕ) → length xs ≤ k → take k (xs ++ ys) ≡ xs ++ take (k - length xs) ys
take-append k [] ys h = ap (λ m. take m ys) (omega arith)
take-append zero (x ∷ xs) ys h = absurd (omega (arith, h))
take-append (suc k) (x ∷ xs) ys h =
    ap (λ zs. x ∷ zs)
      (take-append k xs ys (omega (arith, h)) ∙ ap (λ m. xs ++ take m ys) (omega arith))

-- Every stretch ends in the buffer.
abbrev pub Within : List (ℕ × ℕ) → Type 0
Within [] = Unit
Within ((from, to) ∷ ts) = (to ≤ 8192) × Within ts

Within-append : (ts us : List (ℕ × ℕ)) → Within ts → Within us → Within (ts ++ us)
Within-append [] us h k = k
Within-append ((from, to) ∷ ts) us (b, h) k = (b, Within-append ts us h k)

Within-last : (ts us : List (ℕ × ℕ)) → Within (ts ++ us) → Within us
Within-last [] us h = h
Within-last ((from, to) ∷ ts) us (b, h) = Within-last ts us h

n-print : (bytes : List ℕ) (l : Line) → (print bytes l).n ≡ l.n + length bytes
unfolding print
n-print bytes l =
    if-rule {A = Line} (λ p. p.n ≡ l.n + length bytes) (room l.n == 0) (λ e. refl) (λ e. refl)

print-Within :
    (bytes : List ℕ) (l : Line) → l.n ≤ 8191 → Within l.touched → Within (print bytes l).touched
unfolding print
print-Within bytes l h w =
    if-rule {A = Line} (λ p. Within p.touched) (room l.n == 0) (λ e. w)
      (λ e.
        Within-append l.touched _ w
          ((ground (arith, room_within l.n h, length-take (room l.n - 1) bytes)), tt))

newline_beyond : (l : Line) → 8191 < l.n → l.n < 2 ^ 31 → ¬ Within (print (10 ∷ []) l).touched
unfolding print
newline_beyond l h k =
    if-rule {A = Line} (λ p. ¬ Within p.touched) (room l.n == 0)
      (λ e. absurd (ground (arith, room_beyond l.n h k)))
      (λ e w. let (b, t) = Within-last l.touched _ w in omega (arith, h, b))

same : (a b : ℕ) (xs ys : List ℕ) → a ≡ b → (if a == b then xs else ys) ≡ xs
same a b xs ys e = ground (arith, nat_beq_iff a b)

-- The text and its length agree, with what fits after it, where there is room.
text-print :
    (bytes whole : List ℕ) (l : Line)
    → l.text ≡ whole
    → l.n ≡ length whole
    → l.n ≤ 8190
    → (print bytes l).text ≡ take 8190 (whole ++ bytes)
unfolding print
text-print bytes whole l t n h =
    let r : room l.n - 1 ≡ 8190 - length whole =
      omega (arith, room_within l.n (omega (arith, h)), n) in
    let fitted : l.text ++ take (room l.n - 1) bytes ≡ take 8190 (whole ++ bytes) =
      rw (t, r) (sym (take-append 8190 whole bytes (omega (arith, n, h)))) in
    if-rule {A = Line} (λ p. p.text ≡ take 8190 (whole ++ bytes)) (room l.n == 0)
      (λ e. absurd (ground (arith, room_within l.n (omega (arith, h)))))
      (λ e. same (length l.text) l.n _ _ (ap length t ∙ sym n) ∙ fitted)

le_or_lt : (a b : ℕ) → (a ≤ b) ⊎ (b < a)
le_or_lt a b =
    elim (leb a b) as (λ t. (leb a b ≡ t) → (a ≤ b) ⊎ (b < a)) [
      | true ↦ (λ e. inl (ground (arith, e)))
      | false ↦ (λ e. inr (ground (arith, e)))
    ]
      refl

module _ (date level message : List ℕ) (short : length date + length level + 1 ≤ 8190)
    (int : length date + length level + 1 + length message < 2 ^ 31) where
  abbrev head : List ℕ
  head = date ++ (level ++ 32 ∷ [])

  abbrev dated : Line
  dated = print date empty_line

  abbrev begun : Line
  begun = print (level ++ 32 ∷ []) dated

  n-dated : dated.n ≡ length date
  n-dated = omega (arith, n-print date empty_line)

  length-head : length head ≡ length date + length level + 1
  length-head = omega (arith, length-append date (level ++ 32 ∷ []), length-append level (32 ∷ []))

  n-begun : begun.n ≡ length head
  n-begun =
      omega
        (arith, n-print (level ++ 32 ∷ []) dated, n-dated, length-append date (level ++ 32 ∷ []))

  text-dated : dated.text ≡ date
  text-dated =
      text-print date [] empty_line refl refl (omega arith)
      ∙ take_whole 8190 date (omega (arith, short))

  text-begun : begun.text ≡ head
  text-begun =
      text-print (level ++ 32 ∷ []) date dated text-dated n-dated (omega (arith, n-dated, short))
      ∙ take_whole 8190 head (omega (arith, length-head, short))

  begun-Within : Within begun.touched
  begun-Within =
      print-Within (level ++ 32 ∷ []) dated (omega (arith, n-dated, short))
        (print-Within date empty_line (omega arith) (omega arith, tt))

  n-message : (print message begun).n ≡ length date + length level + 1 + length message
  n-message = omega (arith, n-print message begun, n-begun, length-head)

  -- A line of the log stays in its buffer of 8192 bytes exactly where the date, the level and the
  -- message have no more than 8191 bytes; and what the logger gets are the first 8190 of these.
  pub print_message-Within :
      let l = print_message date level message in
      (l.text ≡ take 8190 ((date ++ (level ++ 32 ∷ [])) ++ message))
      × (Within (print (10 ∷ []) l).touched
          ↔ (length date + length level + 1 + length message ≤ 8191))
  unfolding print_message
  print_message-Within =
      let small : begun.n ≤ 8190 = omega (arith, n-begun, length-head, short) in
      let within =
        print-Within message begun (omega (arith, n-begun, length-head, short)) begun-Within in
      (
        text-print message head begun text-begun n-begun small,
        (
          (λ w. elim (le_or_lt (print message begun).n 8191) [
            | inl h ↦ omega (arith, n-message, h)
            | inr h ↦
                absurd (newline_beyond (print message begun) h (omega (arith, n-message, int)) w)
          ]),
          (λ h. print-Within (10 ∷ []) (print message begun) (omega (arith, n-message, h)) within),
        ),
      )
