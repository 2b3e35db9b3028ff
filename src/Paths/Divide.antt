-- ===== src/Paths/Divide.antt =====
-- divide_fn splits off the last part of a path.
use os_pintos.Common.{
  ℕ, ◌≡◌, refl, sym, ◌∙◌, ap, List, [], ◌∷◌, ◌++◌, Bool, true, false, not, ◌&&◌, ◌==◌, Each, arith,
  inl, inr, Bool-cases,
}
use os_pintos.Paths.{
  slash, token, tokens_from, tokens, divide_loop, starts_with_slash, is_empty, divide_fn,
}

-- A part of a path: not empty, and without a slash.
abbrev pub IsPart : List ℕ → Type 0
IsPart t = (is_empty t ≡ false) × Each (λ c. c == slash ≡ false) t

token-slashes : (s : List ℕ) → Each (λ c. c == slash ≡ false) (token s)
token-slashes [] = tt
token-slashes (c ∷ s) = elim (Bool-cases (c == slash)) [
  | inl y ↦ rw y tt
  | inr n ↦ rw n (n, token-slashes s)
]

tokens_from-parts : (b : Bool) (s : List ℕ) → Each IsPart (tokens_from b s)
tokens_from-parts b [] = tt
tokens_from-parts true (c ∷ s) = tokens_from-parts (not (c == slash)) s
tokens_from-parts false (c ∷ s) = elim (Bool-cases (c == slash)) [
  | inl y ↦ rw y (tokens_from-parts false s)
  | inr n ↦ rw n ((refl, (n, token-slashes s)), tokens_from-parts true s)
]

append_assoc : {A : Type 0} → (a b c : List A) → a ++ b ++ c ≡ a ++ (b ++ c)
append_assoc [] b c = refl
append_assoc (x ∷ a) b c = ap (λ l. x ∷ l) (append_assoc a b c)

append_nil : {A : Type 0} → (l : List A) → l ++ [] ≡ l
append_nil [] = refl
append_nil (x ∷ l) = ap (λ k. x ∷ k) (append_nil l)

token_whole : (t x : List ℕ) → Each (λ c. c == slash ≡ false) t → token (t ++ (slash ∷ x)) ≡ t
token_whole [] x h = refl
token_whole (c ∷ t) x h = rw h.0 (ap (λ l. c ∷ l) (token_whole t x h.1))

tokens_behind :
    (t x : List ℕ)
    → Each (λ c. c == slash ≡ false) t
    → tokens_from true (t ++ (slash ∷ x)) ≡ tokens x
tokens_behind [] x h = refl
tokens_behind (c ∷ t) x h =
    ap (λ b. tokens_from (not b) (t ++ (slash ∷ x))) h.0 ∙ tokens_behind t x h.1

-- A part and a slash before a string are a part more.
tokens_part : (t x : List ℕ) → IsPart t → tokens (t ++ (slash ∷ x)) ≡ t ∷ tokens x
tokens_part [] x h = grind (arith, h.0)
tokens_part (c ∷ t) x h =
    let (n, r) = h.1 in
    rw n (
      ap (λ l. (c ∷ l) ∷ tokens_from true (t ++ (slash ∷ x))) (token_whole t x r)
      ∙ ap (λ l. (c ∷ t) ∷ l) (tokens_behind t x r))

-- A string at whose end a part ends.
abbrev IsClosed : List ℕ → Type 0
IsClosed d = (x : List ℕ) → tokens (d ++ x) ≡ tokens d ++ tokens x

tokens_longer :
    (d t x : List ℕ)
    → IsClosed d
    → IsPart t
    → tokens (d ++ (t ++ (slash ∷ x))) ≡ tokens d ++ (t ∷ tokens x)
tokens_longer d t x c h = c (t ++ (slash ∷ x)) ∙ ap (λ l. tokens d ++ l) (tokens_part t x h)

IsClosed-longer : (d t : List ℕ) → IsClosed d → IsPart t → IsClosed (d ++ (t ++ (slash ∷ [])))
IsClosed-longer d t c h x =
    ap tokens
      (append_assoc d (t ++ (slash ∷ [])) x ∙ ap (λ l. d ++ l) (append_assoc t (slash ∷ []) x))
    ∙ tokens_longer d t x c h
    ∙ sym (append_assoc (tokens d) (t ∷ []) (tokens x))
    ∙ ap (λ l. l ++ tokens x) (sym (tokens_longer d t [] c h))

-- The last part, if there is one.
abbrev pub last_part : List ℕ → List (List ℕ)
last_part [] = []
last_part (c ∷ t) = (c ∷ t) ∷ []

loop_parts :
    (ts : List (List ℕ)) (d last : List ℕ)
    → Each IsPart ts
    → IsClosed d
    → Each IsPart (last_part last)
    → tokens (divide_loop ts d last).0 ++ last_part (divide_loop ts d last).1
      ≡ tokens d ++ (last_part last ++ ts)
loop_parts [] d last h c l = ap (λ k. tokens d ++ k) (sym (append_nil (last_part last)))
loop_parts ([] ∷ ts) d last h c l = grind (arith, h.0.0)
loop_parts ((x ∷ t) ∷ ts) d [] h c l = loop_parts ts d (x ∷ t) h.1 c (h.0, tt)
loop_parts ((x ∷ t) ∷ ts) d (y ∷ last) h c l =
    loop_parts ts (d ++ ((y ∷ last) ++ (slash ∷ []))) (x ∷ t) h.1
      (IsClosed-longer d (y ∷ last) c l.0) (h.0, tt)
    ∙ ap (λ k. k ++ ((x ∷ t) ∷ ts)) (tokens_longer d (y ∷ last) [] c l.0)
    ∙ append_assoc (tokens d) ((y ∷ last) ∷ []) ((x ∷ t) ∷ ts)

starts_longer :
    (d t : List ℕ) → IsPart t → starts_with_slash (d ++ (t ++ (slash ∷ []))) ≡ starts_with_slash d
starts_longer [] [] h = grind (arith, h.0)
starts_longer [] (c ∷ t) h = h.1.0
starts_longer (x ∷ d) t h = refl

loop_starts :
    (ts : List (List ℕ)) (d last : List ℕ)
    → Each IsPart ts
    → Each IsPart (last_part last)
    → starts_with_slash (divide_loop ts d last).0 ≡ starts_with_slash d
loop_starts [] d last h l = refl
loop_starts ([] ∷ ts) d last h l = grind (arith, h.0.0)
loop_starts ((x ∷ t) ∷ ts) d [] h l = loop_starts ts d (x ∷ t) h.1 (h.0, tt)
loop_starts ((x ∷ t) ∷ ts) d (y ∷ last) h l =
    loop_starts ts (d ++ ((y ∷ last) ++ (slash ∷ []))) (x ∷ t) h.1 (h.0, tt)
    ∙ starts_longer d (y ∷ last) l.0

-- The parts of the two results of divide_fn are those of the path, the last one alone in f_token;
-- and d_token is absolute exactly if the path is and the buffer did not begin with a zero.
pub divide_fn_lem :
    (before path : List ℕ)
    → (tokens (divide_fn before path).0 ++ last_part (divide_fn before path).1 ≡ tokens path)
      × (starts_with_slash (divide_fn before path).0
          ≡ (starts_with_slash path && not (is_empty before)))
divide_fn_lem before path = elim (Bool-cases (starts_with_slash path && not (is_empty before))) [
  | inl y ↦
      rw y (
        loop_parts ts (slash ∷ []) [] parts (λ x. refl) tt,
        loop_starts ts (slash ∷ []) [] parts tt,
      )
  | inr n ↦ rw n (loop_parts ts [] [] parts (λ x. refl) tt, loop_starts ts [] [] parts tt)
]
  where
    ts : List (List ℕ)
    ts = tokens path

    parts : Each IsPart (tokens path)
    parts = tokens_from-parts false path
