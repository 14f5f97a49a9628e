-- ===== src/Text.antt =====
-- Python's `str` as a list of code points, with the methods that the program calls.
use Prim.Native.Char.{code}
use justup.Prelude.{
  ℕ, ◌+◌, String, Bool, true, false, ◌&&◌, ◌||◌, List, [], ◌∷◌, reverse, map, leb, ◌==◌,
  if◌then◌else◌, ◌≡◌, refl, arith,
}

abbrev pub codes : String → List ℕ
codes String.[] = []
codes (String.◌∷◌ c s) = code c ∷ codes s

unfoldable pub starts_with : List ℕ → List ℕ → Bool
starts_with [] s = true
starts_with (p ∷ ps) [] = false
starts_with (p ∷ ps) (c ∷ s) = p == c && starts_with ps s

-- word in s
unfoldable pub contains_text : List ℕ → List ℕ → Bool
unfolding starts_with
contains_text word [] = starts_with word []
contains_text word (c ∷ s) = starts_with word (c ∷ s) || contains_text word s

unfoldable pub contains_any : List (List ℕ) → List ℕ → Bool
unfolding contains_text
contains_any [] s = false
contains_any (word ∷ words) s = contains_text word s || contains_any words s

-- `lower` on ASCII; other code points stay.
unfoldable pub lower : List ℕ → List ℕ
lower = map (λ c. if leb b'A' c && leb c b'Z' then c + 32 else c)

-- What `str.isspace` holds for.
unfoldable pub is_space : ℕ → Bool
is_space c =
    leb 9 c && leb c 13
    || leb 28 c && leb c 32
    || c == 133
    || c == 160
    || c == 5760
    || leb 8192 c && leb c 8202
    || c == 8232
    || c == 8233
    || c == 8239
    || c == 8287
    || c == 12288

unfoldable pub lstrip : List ℕ → List ℕ
unfolding is_space
lstrip [] = []
lstrip (c ∷ s) = let rest = lstrip s in if is_space c then rest else c ∷ s

unfoldable pub strip : List ℕ → List ℕ
unfolding lstrip
strip s = reverse (lstrip (reverse (lstrip s)))

-- s.partition(separator)[0], for a separator of one character
unfoldable pub before : ℕ → List ℕ → List ℕ
before separator [] = []
before separator (c ∷ s) = let rest = before separator s in if c == separator then [] else c ∷ rest

-- a == b
unfoldable pub same_text : List ℕ → List ℕ → Bool
same_text [] [] = true
same_text [] (c ∷ t) = false
same_text (c ∷ s) [] = false
same_text (c ∷ s) (d ∷ t) = c == d && same_text s t

pub same_text_refl : (s : List ℕ) → same_text s s ≡ true
unfolding same_text
same_text_refl [] = refl
same_text_refl (c ∷ s) = ground (arith, same_text_refl s)

pub same_text-eq : (s t : List ℕ) → same_text s t ≡ true → s ≡ t
unfolding same_text
same_text-eq [] [] h = refl
same_text-eq [] (d ∷ t) h = absurd (ground arith)
same_text-eq (c ∷ s) [] h = absurd (ground arith)
same_text-eq (c ∷ s) (d ∷ t) h =
    let first : c ≡ d = ground (arith, h) in
    let rest : s ≡ t = same_text-eq s t (ground (arith, h)) in rw (first, rest) refl
