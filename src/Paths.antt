-- ===== src/Paths.antt =====
-- The parts of a path, divide_fn of filesys/directory.c and strtok_r of lib/string.c of project5. A
-- string is the sequence of its characters without the zero at its end.
pub mod Divide
mod Tests
use os_pintos.Common.{
  ℕ, zero, suc, List, [], ◌∷◌, ◌++◌, Bool, true, false, not, ◌&&◌, ◌==◌, if◌then◌else◌,
}

abbrev pub slash : ℕ
slash = 47

-- The characters of the token that begins here, and what is behind it.
abbrev pub token : List ℕ → List ℕ
token [] = []
token (c ∷ s) = if c == slash then [] else c ∷ token s

-- The tokens that strtok_r returns, one after the other, with "/" as the delimiter. The Boolean
-- tells whether the characters before belong to a token.
abbrev pub tokens_from : Bool → List ℕ → List (List ℕ)
tokens_from inside [] = []
tokens_from true (c ∷ s) = tokens_from (not (c == slash)) s
tokens_from false (c ∷ s) =
    if c == slash then tokens_from false s else (c ∷ token s) ∷ tokens_from true s

abbrev pub tokens : List ℕ → List (List ℕ)
tokens s = tokens_from false s

-- The loop of divide_fn, for the tokens that are left: d_token and the last token.
abbrev pub divide_loop : List (List ℕ) → List ℕ → List ℕ → List ℕ × List ℕ
divide_loop [] d_temp last = (d_temp, last)
divide_loop (chunk ∷ chunks) d_temp [] = divide_loop chunks d_temp chunk
divide_loop (chunk ∷ chunks) d_temp (c ∷ last) =
    divide_loop chunks (d_temp ++ ((c ∷ last) ++ (slash ∷ []))) chunk

abbrev pub starts_with_slash : List ℕ → Bool
starts_with_slash [] = false
starts_with_slash (c ∷ s) = c == slash

-- strlen (s) == 0
abbrev pub is_empty : List ℕ → Bool
is_empty [] = true
is_empty (c ∷ s) = false

-- divide_fn; `before` is what d_token holds, which the code reads, d_token and f_token are the
-- results.
abbrev pub divide_fn : List ℕ → List ℕ → List ℕ × List ℕ
divide_fn before path =
    let start = if starts_with_slash path && not (is_empty before) then slash ∷ [] else [] in
    divide_loop (tokens path) start []
