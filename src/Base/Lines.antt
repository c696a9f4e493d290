-- ===== src/Base/Lines.antt =====
-- The lines and words of a text, as `str` gives them.
use Prim.Native.Nat.{ℕ}
use mathlib.Core.Path.{◌≡◌, refl, sym, ap, ap₂, ◌∙◌}
use mathlib.Core.List.{List, [], ◌∷◌, ◌++◌, map, append_assoc, map-append}
use mathlib.Core.Bool.{false, ◌&&◌, not}
use mathlib.Core.Logic.{◌⊎◌, inl, inr}
use cross_host_ops.Base.Tests.{◌==◌, if◌then◌else◌, Bool-cases, ==_refl}
use cross_host_ops.Base.Lists.{retain, All}
use cross_host_ops.Base.Chars.{
  Text, is_empty, split, prepend, newline, carriage_return, is_whitespace,
}

-- A carriage return in front of a newline belongs to the break.
pub chomp : Text → Text
chomp [] = []
chomp (c ∷ s) = let rest = chomp s in if c == carriage_return && is_empty s then [] else c ∷ rest

-- There is no line behind the last break.
pub broken_lines : List Text → List Text
unfolding chomp
broken_lines [] = []
broken_lines (last ∷ []) = if is_empty last then [] else last ∷ []
broken_lines (line ∷ next ∷ rest) = chomp line ∷ broken_lines (next ∷ rest)

unfoldable pub lines : Text → List Text
unfolding broken_lines
lines s = broken_lines (split newline s)

pub split_at_whitespace : Text → List Text
split_at_whitespace [] = [] ∷ []
split_at_whitespace (c ∷ s) =
    let rest = split_at_whitespace s in if is_whitespace c then [] ∷ rest else prepend c rest

unfoldable pub split_whitespace : Text → List Text
unfolding split_at_whitespace
split_whitespace s = retain (λ p. not (is_empty p)) (split_at_whitespace s)

split_parts : (sep : ℕ) (a : Text) → (p : Text) × (ps : List Text) × (split sep a ≡ p ∷ ps)
split_parts sep [] = ([], [], refl)
split_parts sep (c ∷ a) =
    let (p, ps, e) = split_parts sep a in
    elim (Bool-cases (c == sep)) [
      | inl h ↦ ([], split sep a, rw h refl)
      | inr h ↦ (c ∷ p, ps, rw (h, e) refl)
    ]

prepend-append :
    (c : ℕ) (xs ys : List Text)
    → (p : Text) × (ps : List Text) × (xs ≡ p ∷ ps)
    → prepend c (xs ++ ys) ≡ prepend c xs ++ ys
prepend-append c xs ys (p, ps, e) = rw e refl

pub split-append : (sep : ℕ) (a b : Text) → split sep (a ++ (sep ∷ b)) ≡ split sep a ++ split sep b
split-append sep [] b = rw (==_refl sep) refl
split-append sep (c ∷ a) b = elim (Bool-cases (c == sep)) [
  | inl h ↦ rw (h, split-append sep a b) refl
  | inr h ↦ rw (h, split-append sep a b) (prepend-append c _ _ (split_parts sep a))
]

pub split-whole : (sep : ℕ) (a : Text) → All (λ c. (c == sep) ≡ false) a → split sep a ≡ a ∷ []
split-whole sep [] h = refl
split-whole sep (c ∷ a) (p, h) = rw (p, split-whole sep a h) refl

chomp-whole : (a : Text) → All (λ c. (c == carriage_return) ≡ false) a → chomp a ≡ a
unfolding chomp
chomp-whole [] h = refl
chomp-whole (c ∷ a) (p, h) = rw p (ap (λ s. c ∷ s) (chomp-whole a h))

broken_lines-append : (xs : List Text) → broken_lines (xs ++ ([] ∷ [])) ≡ map chomp xs
unfolding broken_lines
broken_lines-append [] = refl
broken_lines-append (x ∷ []) = refl
broken_lines-append (x ∷ y ∷ xs) = ap (λ l. chomp x ∷ l) (broken_lines-append (y ∷ xs))

-- The lines of a text that ends with a newline.
lines-ended : (s : Text) → lines (s ++ (newline ∷ [])) ≡ map chomp (split newline s)
unfolding lines
lines-ended s = ap broken_lines (split-append newline s []) ∙ broken_lines-append (split newline s)

-- Nothing, or a text that ends with a newline.
abbrev pub EndsLine : Text → Type 0
EndsLine s = (s ≡ []) ⊎ ((front : Text) × (s ≡ front ++ (newline ∷ [])))

-- No line break stands in the text.
abbrev pub IsOneLine : Text → Type 0
IsOneLine s = All (λ c. (c == newline) ≡ false) s × All (λ c. (c == carriage_return) ≡ false) s

pub lines-append :
    (s line : Text)
    → EndsLine s
    → IsOneLine line
    → lines (s ++ (line ++ (newline ∷ []))) ≡ lines s ++ (line ∷ [])
unfolding lines
lines-append s line (inl e) (h, k) =
    ap (λ t. lines (t ++ (line ++ (newline ∷ [])))) e
    ∙ (lines-ended line
        ∙ (ap (map chomp) (split-whole newline line h)
            ∙ (ap (λ l. l ∷ []) (chomp-whole line k) ∙ ap (λ t. lines t ++ (line ∷ [])) (sym e))))
lines-append s line (inr (front, e)) (h, k) =
    let regroup =
      append_assoc front (newline ∷ []) (line ++ (newline ∷ []))
      ∙ sym (append_assoc front (newline ∷ line) (newline ∷ [])) in
    let parts =
      split-append newline front line
      ∙ ap (λ l. split newline front ++ l) (split-whole newline line h) in
    ap (λ t. lines (t ++ (line ++ (newline ∷ [])))) e
    ∙ (ap lines regroup
        ∙ (lines-ended (front ++ (newline ∷ line))
            ∙ (ap (map chomp) parts
                ∙ (map-append chomp (split newline front) (line ∷ [])
                    ∙ (ap₂ (λ a b. a ++ (b ∷ [])) (sym (lines-ended front)) (chomp-whole line k)
                        ∙ ap (λ t. lines t ++ (line ∷ [])) (sym e))))))
