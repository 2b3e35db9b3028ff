-- ===== src/Inode/Codec.antt =====
-- An inode that is written to its sector is read back the same.
use os_pintos.Common.{
  ℕ, zero, suc, ◌+◌, ◌*◌, ◌^◌, ◌<◌, ◌≡◌, refl, sym, ◌∙◌, ap, List, [], ◌∷◌, ◌++◌, Bool, true, false,
  not, arith, ◌==◌, length, Each,
}
use os_pintos.Block.{Sector}
use os_pintos.Inode.{InodeDisk, direct, nth, word_at, words, decode}
use os_pintos.Inode.Growth.{word_bytes, encode_words, flag, encode}

-- A number of 32 bits.
abbrev pub IsWord : ℕ → Type 0
IsWord n = n < 2 ^ 32

pub record IsCoded (d : InodeDisk) : Type 0 where
  pub d_indir : IsWord d.d_indir_block
  pub indir : IsWord d.indir_block
  pub blocks : Each IsWord d.dir_blocks
  pub count : length d.dir_blocks ≡ direct
  pub len : IsWord d.length
  pub tag : IsWord d.magic

word_at_front : (n : ℕ) (s : Sector) → IsWord n → word_at (word_bytes n ++ s) 0 ≡ n
word_at_front n s h = omega (arith, h)

word_at_skip : (n : ℕ) (s : Sector) (i : ℕ) → word_at (word_bytes n ++ s) (suc i) ≡ word_at s i
word_at_skip n s i =
    let a : 4 * suc i ≡ suc (suc (suc (suc (4 * i)))) = omega arith in
    let b : 4 * suc i + 1 ≡ suc (suc (suc (suc (4 * i + 1)))) = omega arith in
    let c : 4 * suc i + 2 ≡ suc (suc (suc (suc (4 * i + 2)))) = omega arith in
    let d : 4 * suc i + 3 ≡ suc (suc (suc (suc (4 * i + 3)))) = omega arith in rw (b, c, d, a) refl

words_skip : (m n : ℕ) (s : Sector) (i : ℕ) → words m (suc i) (word_bytes n ++ s) ≡ words m i s
unfolding words
words_skip zero n s i = refl
words_skip (suc m) n s i =
    ap (λ x. x ∷ words m (suc (suc i)) (word_bytes n ++ s)) (word_at_skip n s i)
    ∙ ap (λ l. word_at s i ∷ l) (words_skip m n s (suc i))

words-encode_words :
    (l : List ℕ) (s : Sector) → Each IsWord l → words (length l) 0 (encode_words l ++ s) ≡ l
unfolding encode_words words
words-encode_words [] s h = refl
words-encode_words (n ∷ l) s h =
    let r = encode_words l ++ s in
    ap (λ x. x ∷ words (length l) 1 (word_bytes n ++ r)) (word_at_front n r h.0)
    ∙ ap (λ k. n ∷ k) (words_skip (length l) n r 0 ∙ words-encode_words l s h.1)

word_at-encode_words :
    (l : List ℕ) (s : Sector) (i : ℕ) → word_at (encode_words l ++ s) (length l + i) ≡ word_at s i
unfolding encode_words
word_at-encode_words [] s i = ap (word_at s) (omega arith)
word_at-encode_words (n ∷ l) s i =
    let r = encode_words l ++ s in
    ap (word_at (word_bytes n ++ r)) (omega arith)
    ∙ word_at_skip n r (length l + i)
    ∙ word_at-encode_words l s i

nth-encode_words :
    (l : List ℕ) (s : Sector) (j : ℕ) → nth (encode_words l ++ s) (4 * length l + j) ≡ nth s j
unfolding encode_words
nth-encode_words [] s j = ap (nth s) (omega arith)
nth-encode_words (n ∷ l) s j =
    let e : 4 * suc (length l) + j ≡ suc (suc (suc (suc (4 * length l + j)))) = omega arith in
    rw e (nth-encode_words l s j)

-- The part of a sector behind the direct blocks.
tail_bytes : InodeDisk → Sector
tail_bytes d = word_bytes d.length ++ (word_bytes d.magic ++ (flag d.is_dir ∷ 0 ∷ 0 ∷ 0 ∷ []))

flag-set : (b : Bool) → not (flag b == 0) ≡ b
flag-set true = refl
flag-set false = refl

-- The sector behind the pointers to the index blocks.
rest_bytes : InodeDisk → Sector
unfolding tail_bytes
rest_bytes d = encode_words d.dir_blocks ++ tail_bytes d

blocks_lem : (d : InodeDisk) → IsCoded d → words direct 0 (rest_bytes d) ≡ d.dir_blocks
unfolding rest_bytes
blocks_lem d c =
    ap (λ n. words n 0 (rest_bytes d)) (sym c.count)
    ∙ words-encode_words d.dir_blocks (tail_bytes d) c.blocks

after_lem :
    (d : InodeDisk) (i : ℕ)
    → IsCoded d
    → word_at (rest_bytes d) (direct + i) ≡ word_at (tail_bytes d) i
unfolding rest_bytes
after_lem d i c =
    ap (λ n. word_at (rest_bytes d) (n + i)) (sym c.count)
    ∙ word_at-encode_words d.dir_blocks (tail_bytes d) i

flag_lem : (d : InodeDisk) → IsCoded d → nth (rest_bytes d) 500 ≡ flag d.is_dir
unfolding rest_bytes tail_bytes
flag_lem d c =
    let e : 500 ≡ 4 * length d.dir_blocks + 8 = omega (arith, c.count) in
    ap (nth (rest_bytes d)) e ∙ nth-encode_words d.dir_blocks (tail_bytes d) 8

abbrev made : ℕ → ℕ → List ℕ → ℕ → ℕ → Bool → InodeDisk
made a b l n m f = record {
  d_indir_block = a;
  indir_block = b;
  dir_blocks = l;
  length = n;
  magic = m;
  is_dir = f;
}

same_made :
    {a a' b b' : ℕ} {l l' : List ℕ} {n n' m m' : ℕ} {f f' : Bool}
    → a ≡ a'
    → b ≡ b'
    → l ≡ l'
    → n ≡ n'
    → m ≡ m'
    → f ≡ f'
    → made a b l n m f ≡ made a' b' l' n' m' f'
same_made p q r s t u = rw (p, q, r, s, t, u) refl

decoded :
    (s : Sector) (d : InodeDisk)
    → word_at s 0 ≡ d.d_indir_block
    → word_at s 1 ≡ d.indir_block
    → words direct 2 s ≡ d.dir_blocks
    → word_at s 125 ≡ d.length
    → word_at s 126 ≡ d.magic
    → not (nth s 508 == 0) ≡ d.is_dir
    → decode s ≡ d
decoded s d p q r t u v = same_made p q r t u v

-- decode of what encode wrote is the inode, for an inode of 123 direct blocks whose numbers have 32
-- bits.
pub decode-encode : (d : InodeDisk) → IsCoded d → decode (encode d) ≡ d
unfolding encode rest_bytes tail_bytes
decode-encode d c =
    let t = rest_bytes d in
    let m = word_bytes d.magic ++ (flag d.is_dir ∷ 0 ∷ 0 ∷ 0 ∷ []) in
    decoded (encode d) d (word_at_front d.d_indir_block (word_bytes d.indir_block ++ t) c.d_indir)
      (word_at_front d.indir_block t c.indir)
      (words_skip direct d.d_indir_block (word_bytes d.indir_block ++ t) 1
        ∙ words_skip direct d.indir_block t 0
        ∙ blocks_lem d c)
      (after_lem d 0 c ∙ word_at_front d.length m c.len)
      (after_lem d 1 c ∙ word_at_front d.magic (flag d.is_dir ∷ 0 ∷ 0 ∷ 0 ∷ []) c.tag)
      (ap (λ x. not (x == 0)) (flag_lem d c) ∙ flag-set d.is_dir)
