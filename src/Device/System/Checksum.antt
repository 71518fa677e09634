-- ===== src/Device/System/Checksum.antt =====
-- CSystemManager, `getFileMD5` of Src/Device/Component/System/SystemManager.cpp: the MD5 of a file, read
-- in pieces.
use Prim.Native.String.{String}
use shuchuang.Shared.{
  ℕ, zero, suc, ◌+◌, ◌≤◌, ◌<◌, ◌≡◌, refl, ap, ◌∙◌, true, false, Option, none, some, List, [], ◌∷◌,
  ◌++◌, arith, Bool-cases, inl, inr, length, take, drop, ltb, if◌then◌else◌,
}

-- `MD5Engine`: what is added in two pieces counts as the one that they make.
pub record Md5Engine (S : Type 0) : Type 0 where
  pub begin : S
  pub update : S → List ℕ → S
  pub digest : S → String
  pub update-append : (s : S) (a b : List ℕ) → update (update s a) b ≡ update s (a ++ b)

abbrev pub buffer_size : ℕ
buffer_size = 8192

module _ {A : Type 0} where
  take-drop : (n : ℕ) (l : List A) → take n l ++ drop n l ≡ l
  take-drop zero l = refl
  take-drop (suc n) [] = refl
  take-drop (suc n) (x ∷ l) = ap (λ r. x ∷ r) (take-drop n l)

  length-take : (n : ℕ) (l : List A) → length (take n l) + length (drop n l) ≡ length l
  length-take zero l = omega arith
  length-take (suc n) [] = omega arith
  length-take (suc n) (x ∷ l) = omega (arith, length-take n l)

  take-short : (n : ℕ) (l : List A) → length (take n l) < n → take n l ≡ l
  take-short zero l h = ground arith
  take-short (suc n) [] h = refl
  take-short (suc n) (x ∷ l) h = ap (λ r. x ∷ r) (take-short n l (omega arith))

  drop-shorter :
      (n : ℕ) (l : List A)
      → buffer_size ≤ length (take buffer_size l)
      → length l < suc n
      → length (drop buffer_size l) < n
  drop-shorter n l a b = omega (arith, length-take buffer_size l)

ltb-less : (a b : ℕ) → ltb a b ≡ true → a < b
ltb-less a b e = ground arith

ltb-more : (a b : ℕ) → ltb a b ≡ false → b ≤ a
ltb-more a b e = ground arith

module _ {S : Type 0} ⦃e : Md5Engine S⦄ where
  -- The loop, for at most so many pieces. `file` are the bytes that the stream gives, up to the end of
  -- the file or to a read error: a read that gives fewer than it was asked for sets `eof` in both cases.
  unfoldable pub hash_file : ℕ → List ℕ → S → Option S
  hash_file zero file s = none
  hash_file (suc n) file s =
      let piece = take buffer_size file in
      let added = e.update s piece in
      let rest = hash_file n (drop buffer_size file) added in
      if ltb (length piece) buffer_size then some added else rest

  hash_file-whole :
      (n : ℕ) (file : List ℕ) (s : S)
      → length file < n
      → hash_file n file s ≡ some (e.update s file)
  unfolding hash_file
  hash_file-whole zero file s h = ground arith
  hash_file-whole (suc n) file s h =
      let piece = take buffer_size file in
      let rest = drop buffer_size file in
      elim (Bool-cases (ltb (length piece) buffer_size)) [
        | inl t ↦
            rw t (ap (λ x. some (e.update s x)) (take-short buffer_size file (ltb-less _ _ t)))
        | inr f ↦ rw f (
            hash_file-whole n rest (e.update s piece) (drop-shorter n file (ltb-more _ _ f) h)
            ∙ ap some (e.update-append s piece rest)
            ∙ ap (λ x. some (e.update s x)) (take-drop buffer_size file))
      ]

-- One piece more than the file has bytes.
unfoldable pub get_file_md5 : {S : Type 0} → Md5Engine S → List ℕ → Option String
get_file_md5 e file = elim (hash_file ⦃e = e⦄ (suc (length file)) file e.begin) [
  | none ↦ none
  | some s ↦ some (e.digest s)
]

-- The loop ends on each file, after at most one piece more than the stream gives bytes, and what it gives
-- is the digest of all these bytes at once.
pub get_file_md5-digest :
    {S : Type 0} (e : Md5Engine S) (file : List ℕ)
    → get_file_md5 e file ≡ some (e.digest (e.update e.begin file))
unfolding get_file_md5
get_file_md5-digest e file =
    rw (get_file_md5, hash_file-whole ⦃e = e⦄ (suc (length file)) file e.begin (omega arith)) refl
